-- ===== src/AuditChain/Tests.antt =====
-- The theorems about the audit chain at concrete inputs, and tests of its definitions.
use vigil_apex_f.Common.{
  ℕ, ◌-◌, ◌≡◌, ◌⊎◌, refl, ap, ◌∙◌, none, some, [], ◌∷◌, List, Text, codes, arith, length, min,
}
use vigil_apex_f.AuditChain.Json.{str, obj, end, field, Fields}
use vigil_apex_f.AuditChain.Platform.{Collision}
use vigil_apex_f.AuditChain.Canonical.{decimal, body_hash, row_hash}
use vigil_apex_f.AuditChain.Canonical.Injective.{SameFields, canonicalise-injective}
use vigil_apex_f.AuditChain.Chain.{IsChain}
use vigil_apex_f.AuditChain.Store.{Row, Table, select_range}
use vigil_apex_f.AuditChain.Append.{
  append, event_at, prepare, gate_audit_field, row_after, Result, ok as appended, err,
  forbidden_field_char,
}
use vigil_apex_f.AuditChain.Append.Outcome.{append-IsChain, Extends}
use vigil_apex_f.AuditChain.Verify.{ok, verify}
use vigil_apex_f.AuditChain.Verify.Links.{Links}
use vigil_apex_f.AuditChain.Verify.Sound.{verify_sound}
use vigil_apex_f.AuditChain.Verify.Complete.{verify_complete}
use vigil_apex_f.AuditChain.Verify.Gap.{verify_short_batch, without}
use vigil_apex_f.AuditChain.Verify.Binding.{verify-binding, SameLines}
use vigil_apex_f.AuditChain.Offline.{Scan, scan_rows}
use vigil_apex_f.AuditChain.Offline.Cascade.{scan_rows-cascade}
use vigil_apex_f.AuditChain.Offline.Rows.{
  IsExportable, parse_rows, parsed, export, parse_rows-export,
}
use vigil_apex_f.AuditChain.Demo.{
  demo, demo-Laws, now, vote, other, env, env-OthersAreGated, log, log-IsChain, length-log,
}

abbrev two_keys : Fields
two_keys = field (codes "b") (str []) (field (codes "a") (str []) end)

abbrev two_keys' : Fields
two_keys' = field (codes "a") (str []) (field (codes "b") (str []) end)

canonicalise-injective_example : SameFields demo (event_at demo 4 other) (event_at demo 4 other)
unfolding event_at
canonicalise-injective_example =
    canonicalise-injective demo demo-Laws (event_at demo 4 other) (event_at demo 4 other)
      (omega arith) (omega arith) refl

append-IsChain_example :
    IsChain demo (append demo now env vote log).0 × Extends log (append demo now env vote log).0
append-IsChain_example =
    append-IsChain demo demo-Laws now env vote log env-OthersAreGated log-IsChain

abbrev result : Table × Result Row
result = append demo now env vote log

verify-log : verify demo 1 none 1000 log ≡ some (ok 3)
verify-log =
    verify_complete demo log none 1000 log-IsChain (omega arith)
    ∙ ap (λ n. some (ok n)) (omega (arith, length-log))

verify_complete_example : verify demo 1 (some 2) 1 log ≡ some (ok (min 2 (length log)))
verify_complete_example = verify_complete demo log (some 2) 1 log-IsChain (omega arith)

verify_sound_example :
    Links demo none 1 (select_range 1 3 log) × (length (select_range 1 3 log) ≡ 3)
verify_sound_example = verify_sound demo log none 1000 3 (omega arith) verify-log

verify_short_batch_example : verify demo 1 none 2 (without 2 log) ≡ some (ok 1)
verify_short_batch_example =
    verify_short_batch demo log none 2 log-IsChain (omega arith) (omega arith)
      (omega (arith, length-log))

verify-binding_example :
    SameLines demo (select_range 1 3 log) (select_range 1 3 log) ⊎ Collision demo
verify-binding_example =
    verify-binding demo demo-Laws log log none none 1000 1000 3 (omega arith) (omega arith)
      verify-log verify-log refl

abbrev row_of : Result Row → Row
row_of (appended r) = r
row_of (err e) = record {
  id = [];
  seq = 0;
  action = [];
  actor = [];
  subject_kind = [];
  subject_id = [];
  occurred_at = [];
  payload = obj end;
  prev_hash = none;
  body_hash = [];
}

-- A field with the separator is refused, and the table is left alone.
append_refuses :
    append demo now env (record vote { actor = codes "a|b" }) log
    ≡ (log, err (forbidden_field_char (codes "actor")))
unfolding append prepare gate_audit_field
append_refuses = refl

abbrev untouched : Row
untouched =
    let r = row_after demo none (codes "u") other in
    record r {
      seq = 5;
      prev_hash = some (codes "a");
      body_hash = row_hash demo (some (codes "a")) (body_hash demo (event_at demo 5 other));
    }

abbrev tampered : Scan
tampered = record { prev = some (codes "b"); seq_expected = 5; verified = 4; divergences = [] }

scan_rows-cascade_example :
    ((scan_rows demo tampered (untouched ∷ [])).verified ≡ 4) ⊎ Collision demo
unfolding row_after event_at
scan_rows-cascade_example =
    scan_rows-cascade demo demo-Laws (untouched ∷ []) tampered (codes "a") (codes "b") 5 refl
      (record { seq_fits = refl; hash_fits = refl; prev_fits = refl }, tt) (ground arith)

abbrev exported : List (Text × List Text)
exported = (codes "id", codes "payload" ∷ []) ∷ (codes "a,1", codes "\"x\"" ∷ []) ∷ []

-- A reader of seqs of one digit.
abbrev one_digit : Text → ℕ
one_digit [] = 0
one_digit (c ∷ t) = c - b'0'

abbrev row : Row
row = record {
  id = codes "u7";
  seq = 7;
  action = codes "doc.read";
  actor = codes "a, \"b\"";
  subject_kind = codes "dossier";
  subject_id = codes "d1";
  occurred_at = codes "12";
  payload = str [];
  prev_hash = none;
  body_hash = codes "ab";
}

row-IsExportable : IsExportable (λ v. codes "\"\"") one_digit (λ t. some (str [])) row
unfolding decimal
row-IsExportable = record { seq_read = refl; payload_read = refl; prev_shown = λ e. cc e }

parse_rows-export_example :
    parse_rows one_digit (λ t. some (str [])) (export (λ v. codes "\"\"") (row ∷ []))
    ≡ parsed (row ∷ [])
parse_rows-export_example =
    parse_rows-export (λ v. codes "\"\"") one_digit (λ t. some (str [])) (row ∷ [])
      (row-IsExportable, tt)

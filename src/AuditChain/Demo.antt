-- ===== src/AuditChain/Demo.antt =====
-- A concrete platform that has the laws, and a log written over it: what the tests of
-- packages/audit-chain run on.
use vigil_apex_f.Common.{
  ℕ, zero, suc, ◌+◌, ◌*◌, ◌%◌, ◌≡◌, refl, none, some, [], ◌∷◌, ◌++◌, Text, codes, arith, length,
  ◌<◌, to_lower, lower_code,
}
use vigil_apex_f.AuditChain.Json.{str, obj, end, field, same_refl}
use vigil_apex_f.AuditChain.Platform.{Platform, Laws}
use vigil_apex_f.AuditChain.Canonical.{decimal}
use vigil_apex_f.AuditChain.Canonical.Injective.{IsPlain-decimal}
use vigil_apex_f.AuditChain.Store.{Table, tail_row}
use vigil_apex_f.AuditChain.Chain.{IsChain}
use vigil_apex_f.AuditChain.Append.{
  AppendInput, Gated, Attempt, commits, rolled_back, answer_lost, append, event_at, prepare,
  gate_audit_field, attempt, insert_next, commit_others,
}
use vigil_apex_f.AuditChain.Append.Laws.{IsGated}
use vigil_apex_f.AuditChain.Append.Outcome.{OthersAreGated, append-IsChain}

abbrev checksum : ℕ → Text → ℕ
checksum n [] = n
checksum n (c ∷ t) = checksum ((n * 131 + c) % 1000003) t

abbrev repeat : ℕ → ℕ → Text
repeat zero c = []
repeat (suc n) c = c ∷ repeat n c

length-repeat : (n c : ℕ) → length (repeat n c) ≡ n
length-repeat zero c = refl
length-repeat (suc n) c = omega (arith, length-repeat n c)

abbrev pub demo : Platform
demo = record {
  sha256 = λ t. repeat 64 (1000 + checksum 7 t);
  nfc = λ t. t;
  quote = λ t. b'"' ∷ (t ++ b'"' ∷ []);
  parse_date = λ t. some (length t);
  to_iso = decimal;
  jsonb = λ v. v;
  timestamptz = λ t. t;
}

pub demo-Laws : Laws demo
demo-Laws = record {
  sha256_length = λ t. length-repeat 64 (1000 + checksum 7 t);
  nfc_plain = λ t h. h;
  iso_plain = IsPlain-decimal;
  jsonb_same = same_refl;
  timestamptz_iso = λ ms. refl;
}

abbrev pub now : Text
now = codes "2026-05-16"

abbrev pub vote : AppendInput
vote = record {
  action = codes "vote.cast";
  actor = codes "member-3";
  subject_kind = codes "proposal";
  subject_id = codes "p7";
  occurred_at = none;
  payload = some (obj (field (codes "choice") (str (codes "YES")) end));
}

abbrev pub other : Gated
other = record {
  action = codes "doc.read";
  actor = codes "auditor";
  subject_kind = codes "dossier";
  subject_id = codes "d1";
  occurred_at = codes "12";
  payload = obj end;
}

pub other-IsGated : IsGated demo other
unfolding event_at
other-IsGated = record { plain = omega arith; instant = refl }

-- The first attempt is rolled back after another writer's commit, the answer to the second is lost,
-- and the third commits.
abbrev pub env : ℕ → Attempt
env zero = record { id = codes "a"; fate = rolled_back; others = (codes "x", other) ∷ [] }
env (suc zero) = record { id = codes "b"; fate = answer_lost; others = [] }
env (suc (suc n)) = record { id = codes "c"; fate = commits; others = [] }

pub env-OthersAreGated : OthersAreGated demo env
env-OthersAreGated zero = (other-IsGated, tt)
env-OthersAreGated (suc zero) = tt
env-OthersAreGated (suc (suc n)) = tt

abbrev pub log : Table
log = (append demo now env vote []).0

pub log-IsChain : IsChain demo log
log-IsChain = (append-IsChain demo demo-Laws now env vote [] env-OthersAreGated tt).0

pub length-log : length log ≡ 3
unfolding append prepare gate_audit_field attempt insert_next tail_row commit_others
length-log = refl

to_lower-repeat : (n c : ℕ) → b'Z' < c → to_lower (repeat n c) ≡ repeat n c
to_lower-repeat zero c h = refl
to_lower-repeat (suc n) c h =
    let same : lower_code c ≡ c = ground (arith, h) in cc (same, to_lower-repeat n c h)

pub demo-lower : (t : Text) → to_lower (demo.sha256 t) ≡ demo.sha256 t
demo-lower t = to_lower-repeat 64 (1000 + checksum 7 t) (omega arith)

-- ===== src/Ledger/Tests.antt =====
-- The theorems about the ledger over the log of the audit chain's demonstration.
use vigil_apex_f.Common.{◌≡◌, ◌⊎◌, refl, some, [], ◌∷◌, Text, arith}
use vigil_apex_f.AuditChain.Platform.{Collision}
use vigil_apex_f.AuditChain.Store.{Table, body_hash_at, select_range, tail_row}
use vigil_apex_f.AuditChain.Append.{
  append, prepare, gate_audit_field, attempt, insert_next, commit_others,
}
use vigil_apex_f.AuditChain.Verify.Binding.{SameLines}
use vigil_apex_f.AuditChain.Demo.{demo, demo-Laws, demo-lower, log, log-IsChain, length-log}
use vigil_apex_f.Ledger.{Commitment, passed, verify_commitment}
use vigil_apex_f.Ledger.Checked.{verify_commitment_complete, verify_commitment-binding}

abbrev head_hash : Table → Text
head_hash [] = []
head_hash (r ∷ t) = r.body_hash

abbrev commitment : Commitment
commitment = record { from_seq = 1; to_seq = 3; root_hash = head_hash log }

log-tail : body_hash_at 3 log ≡ some (head_hash log)
unfolding append prepare gate_audit_field attempt insert_next tail_row commit_others body_hash_at
log-tail = refl

log-checked : verify_commitment demo commitment log ≡ some (passed 3)
log-checked =
    verify_commitment_complete demo log 3 (head_hash log) (head_hash log) log-IsChain
      (omega (arith, length-log)) log-tail refl

verify_commitment-binding_example :
    SameLines demo (select_range 1 3 log) (select_range 1 3 log) ⊎ Collision demo
verify_commitment-binding_example =
    verify_commitment-binding demo demo-Laws demo-lower commitment log log 3 3 refl (omega arith)
      log-checked log-checked

-- A digest of two nodes that happens to be the hash of the last row.
abbrev node : Text → Text → Text
node left right = head_hash log

-- ===== src/Ledger.antt =====
-- packages/audit-chain/src/verifier.ts, LedgerVerifier: the commitments that the anchor contract
-- holds, in the order of their indices, checked against the audit table.
pub mod Tail
pub mod Checked
pub mod Each
pub mod Merkle
pub mod Anchored
mod Tests
use vigil_apex_f.Common.{
  ℕ, zero, suc, ◌+◌, Bool, true, false, Option, none, some, List, [], ◌∷◌, Text, ◌==◌,
  if◌then◌else◌, text_eq, to_lower,
}
use vigil_apex_f.AuditChain.Platform.{Platform}
use vigil_apex_f.AuditChain.Store.{Table, body_hash_at}
use vigil_apex_f.AuditChain.Verify.{Break, Verdict, ok, broken, verify}

pub record Commitment : Type 0 where
  pub from_seq : ℕ
  pub to_seq : ℕ
  pub root_hash : Text

pub data LedgerError : Type 0 where
  -- what `chain.verify` threw
  chain_error : Break → LedgerError
  -- the range, and how many rows of it were verified
  count_error : Commitment → ℕ → LedgerError
  tail_missing : Commitment → LedgerError
  -- the anchored hash and the local one
  divergence : Commitment → Text → Text → LedgerError

pub data Check {ℓ} (A : Type ℓ) : Type ℓ where
  passed : A → Check A
  refused : LedgerError → Check A

pub record Report : Type 0 where
  pub verified : ℕ
  pub commitments_checked : ℕ

-- `none` is a sweep that never ends.
abbrev pub and_check {ℓ κ} :
    {A : Type ℓ} {B : Type κ} → Option (Check A) → (A → Option (Check B)) → Option (Check B)
and_check none f = none
and_check (some (refused e)) f = some (refused e)
and_check (some (passed a)) f = f a

abbrev pub lift_verdict : Option (Verdict ℕ) → Option (Check ℕ)
lift_verdict none = none
lift_verdict (some (ok n)) = some (passed n)
lift_verdict (some (broken b)) = some (refused (chain_error b))

-- The comparison of the tail with the anchored root.
abbrev pub compare_tail : Commitment → ℕ → Option Text → Check ℕ
compare_tail c n none = refused (tail_missing c)
compare_tail c n (some local) =
    if text_eq (to_lower local) (to_lower c.root_hash)
    then passed n
    else refused (divergence c (to_lower c.root_hash) (to_lower local))

-- The count of verified rows has to be `toSeq - fromSeq + 1`, as an equation of integers.
abbrev pub check_count : Commitment → Table → ℕ → Check ℕ
check_count c t n =
    if n + c.from_seq == c.to_seq + 1
    then compare_tail c n (body_hash_at c.to_seq t)
    else refused (count_error c n)

module _ (p : Platform) where
  unfoldable pub verify_commitment : Commitment → Table → Option (Check ℕ)
  verify_commitment c t =
      and_check (lift_verdict (verify p c.from_seq (some c.to_seq) 1000 t))
        (λ n. some (check_count c t n))

  -- The loop of verifyAll, from the sums so far.
  unfoldable pub verify_each : Report → List Commitment → Table → Option (Check Report)
  verify_each r [] t = some (passed r)
  verify_each r (c ∷ cs) t = and_check (verify_commitment c t) (λ n.
      verify_each
        (record { verified = r.verified + n; commitments_checked = r.commitments_checked + 1 }) cs
        t)

  unfoldable pub verify_all : List Commitment → Table → Option (Check Report)
  verify_all cs t = verify_each (record { verified = 0; commitments_checked = 0 }) cs t

  -- getCommitment(total - 1)
  abbrev pub last_commitment : List Commitment → Option Commitment
  last_commitment [] = none
  last_commitment (c ∷ cs) =
      let rest = last_commitment cs in elim rest [ none ↦ some c | some d ↦ some d ]

  abbrev pub verify_last : Option Commitment → Table → Option (Check Report)
  verify_last none t = some (passed (record { verified = 0; commitments_checked = 0 }))
  verify_last (some c) t =
      and_check (verify_commitment c t)
        (λ n. some (passed (record { verified = n; commitments_checked = 1 })))

  unfoldable pub verify_latest : List Commitment → Table → Option (Check Report)
  verify_latest cs t = verify_last (last_commitment cs) t

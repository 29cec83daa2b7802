-- ===== src/AuditChain/Verify.antt =====
-- HashChain.verify of packages/audit-chain/src/hash-chain.ts.
pub mod Links
pub mod Sound
pub mod Complete
pub mod MidChain
pub mod Gap
pub mod Binding
use vigil_apex_f.Common.{
  ℕ, zero, suc, ◌+◌, ◌-◌, ◌≤◌, ◌^◌, min, Bool, true, false, Option, none, some, List, [], ◌∷◌, Text,
  leb, ltb, ◌==◌, if◌then◌else◌, text_eq, length,
}
use vigil_apex_f.AuditChain.Platform.{Platform}
use vigil_apex_f.AuditChain.Canonical.{body_hash, row_hash}
use vigil_apex_f.AuditChain.Store.{Row, Table, event_of, select_range}

-- HashChainBrokenError, with the row's id and which of the three checks threw.
pub data Break : Type 0 where
  seq_break : Text → ℕ → ℕ → Break
  hash_break : Text → Text → Text → Break
  prev_break : Text → Option Text → Option Text → Break

pub data Verdict {ℓ} (A : Type ℓ) : Type ℓ where
  ok : A → Verdict A
  broken : Break → Verdict A

-- The variables that one batch hands to the next.
pub record Sweep : Type 0 where
  pub prev : Option Text
  pub seq_expected : ℕ
  pub verified : ℕ

-- `a === b` on `string | null`
unfoldable pub hash_eq : Option Text → Option Text → Bool
hash_eq none none = true
hash_eq none (some t) = false
hash_eq (some s) none = false
hash_eq (some s) (some t) = text_eq s t

abbrev pub and_then {ℓ κ} : {A : Type ℓ} {B : Type κ} → Verdict A → (A → Verdict B) → Verdict B
and_then (ok a) f = f a
and_then (broken b) f = broken b

-- What follows the query: `break` on an empty batch, the rows in turn, `break` on a short batch.
abbrev pub after_batch :
    ℕ → ℕ → Sweep → Verdict Sweep → (Sweep → Option (Verdict ℕ)) → Option (Verdict ℕ)
after_batch zero batch_size s checked again = some (ok s.verified)
after_batch (suc n) batch_size s (broken b) again = some (broken b)
after_batch (suc n) batch_size s (ok s') again =
    if ltb (suc n) batch_size then some (ok s'.verified) else again s'

-- `to ?? Number.MAX_SAFE_INTEGER`
abbrev pub or_max : Option ℕ → ℕ
or_max none = 2 ^ 53 - 1
or_max (some to) = to

module _ (p : Platform) where
  -- The body of `for (const row of cursor.rows)`.
  unfoldable pub check_row : Sweep → Row → Verdict Sweep
  check_row s row =
      let expected = row_hash p s.prev (body_hash p (event_of row)) in
      if row.seq == s.seq_expected
      then if text_eq expected row.body_hash
        then if hash_eq row.prev_hash s.prev
          then ok (record {
            prev = some row.body_hash;
            seq_expected = row.seq + 1;
            verified = s.verified + 1;
          })
          else broken (prev_break row.id s.prev row.prev_hash)
        else broken (hash_break row.id expected row.body_hash)
      else broken (seq_break row.id s.seq_expected row.seq)

  unfoldable pub check_rows : Sweep → List Row → Verdict Sweep
  check_rows s [] = ok s
  check_rows s (row ∷ rows) = and_then (check_row s row) (λ s'. check_rows s' rows)

  -- `while (cursorFrom <= upper)`; `none` when the fuel runs out. The test for no rows and the test
  -- for fewer rows than asked both leave the loop.
  unfoldable pub verify_loop : ℕ → ℕ → ℕ → ℕ → Sweep → Table → Option (Verdict ℕ)
  verify_loop zero cursor_from upper batch_size s t = none
  verify_loop (suc fuel) cursor_from upper batch_size s t =
      let batch_upper = min upper (cursor_from + batch_size - 1) in
      let rows = select_range cursor_from batch_upper t in
      let again = λ (s' : Sweep). verify_loop fuel (batch_upper + 1) upper batch_size s' t in
      if leb cursor_from upper
      then after_batch (length rows) batch_size s (check_rows s rows) again
      else some (ok s.verified)

  -- Each round moves the cursor past at least one seq, so `upper + 1` rounds are enough.
  unfoldable pub verify : ℕ → Option ℕ → ℕ → Table → Option (Verdict ℕ)
  verify from to batch_size t =
      let upper = or_max to in
      verify_loop (upper + 2) from upper batch_size
        (record { prev = none; seq_expected = from; verified = 0 }) t

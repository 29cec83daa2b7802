-- ===== src/AuditChain/Verify/Gap.antt =====
-- HashChain.verify and a row that is missing where a batch ends.
use vigil_apex_f.Common.{
  ℕ, suc, ◌+◌, ◌-◌, ◌≤◌, ◌≡◌, refl, ap, ◌∙◌, subst, Bool-cases, inl, inr, not, ◌&&◌, Option, none,
  some, [], ◌∷◌, arith, length, keep, leb, le→leb, ◌==◌, min,
}
use vigil_apex_f.AuditChain.Platform.{Platform}
use vigil_apex_f.AuditChain.Chain.{IsChain}
use vigil_apex_f.AuditChain.Store.{Table, select_range, sort_rows, insert_row}
use vigil_apex_f.AuditChain.Store.Ranges.{select_range-inside, select_range-outside}
use vigil_apex_f.AuditChain.Verify.{Sweep, ok, or_max, verify_loop, verify}
use vigil_apex_f.AuditChain.Verify.Links.{check_rows_ok, sweep_after}
use vigil_apex_f.AuditChain.Verify.Complete.{IsChain-Selected, after_batch_cases}

-- The table without the row of one seq.
abbrev pub without : ℕ → Table → Table
without n = keep (λ r. not (r.seq == n))

select_range-without :
    (n : ℕ) (t : Table) → select_range 1 (n + 1) (without (n + 1) t) ≡ select_range 1 n t
select_range-without n [] = unfold select_range sort_rows in refl
select_range-without n (r ∷ t) = elim (Bool-cases (r.seq == n + 1)) [
  | inl gone ↦
      rw (gone, select_range-outside 1 n r t (ground (arith, gone))) (select_range-without n t)
  | inr stays ↦ rw stays (elim (Bool-cases (leb 1 r.seq && leb r.seq n)) [
    | inl inside ↦
        rw
          (
            select_range-inside 1 n r t (ground (arith, inside)) (ground (arith, inside)),
            select_range-inside 1 (n + 1) r (without (n + 1) t) (ground (arith, inside))
                (ground (arith, inside)),
          )
          (ap (insert_row r) (select_range-without n t))
    | inr outside ↦
        rw
          (
            select_range-outside 1 n r t outside,
            select_range-outside 1 (n + 1) r (without (n + 1) t) (ground (arith, stays, outside)),
          )
          (select_range-without n t)
  ])
]

abbrev start : Sweep
start = record { prev = none; seq_expected = 1; verified = 0 }

verify_loop-short :
    (p : Platform) (t : Table) (fuel upper b : ℕ)
    → IsChain p t
    → 1 ≤ b
    → b ≤ upper
    → b ≤ length t
    → verify_loop p (suc fuel) 1 upper b start (without b t) ≡ some (ok (b - 1))
unfolding verify_loop
verify_loop-short p t fuel upper b c one le within =
    let sel = IsChain-Selected p t (b - 1) c in
    let back : b - 1 + 1 ≡ b = omega (arith, one) in
    let hi : min upper (1 + b - 1) ≡ b = omega (arith, le) in
    let rows = select_range 1 (b - 1) t in
    let e : select_range 1 (min upper (1 + b - 1)) (without b t) ≡ rows =
      ap (λ j. select_range 1 j (without b t)) hi
      ∙ subst (λ j. select_range 1 j (without j t) ≡ rows) back (select_range-without (b - 1) t) in
    let len : length rows ≡ b - 1 = omega (arith, sel.counted, within) in
    rw (le→leb 1 upper (omega (arith, one, le)), e, check_rows_ok p rows start sel.linked)
      (after_batch_cases (length rows) b start (sweep_after p start rows) _ (some (ok (b - 1)))
        (λ z. ap (λ n. some (ok n)) (omega (arith, len, z)))
        (λ _ _. ap (λ n. some (ok n)) (omega (arith, len)))
        (λ _ full. absurd (omega (arith, len, full, one))))

-- Take the row out of a hash chain that a batch would end with, at the seq `batch_size`, which is
-- positive and not above the upper end or the length: the sweep from the first row still succeeds, with the rows before it, and looks at no row after it.
pub verify_short_batch :
    (p : Platform) (t : Table) (to : Option ℕ) (batch_size : ℕ)
    → IsChain p t
    → 1 ≤ batch_size
    → batch_size ≤ or_max to
    → batch_size ≤ length t
    → verify p 1 to batch_size (without batch_size t) ≡ some (ok (batch_size - 1))
unfolding verify
verify_short_batch p t to b c one le within =
    let rounds : suc (or_max to + 1) ≡ or_max to + 2 = omega arith in
    subst (λ f. verify_loop p f 1 (or_max to) b start (without b t) ≡ some (ok (b - 1))) rounds
      (verify_loop-short p t (or_max to + 1) (or_max to) b c one le within)

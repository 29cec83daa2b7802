-- ===== src/AuditChain/Verify/MidChain.antt =====
-- A sweep that does not begin at the first row: HashChain.verify starts with `prev = null`.
use vigil_apex_f.Common.{
  ℕ, zero, suc, ◌+◌, ◌-◌, ◌≤◌, ◌<◌, ◌≡◌, refl, ap, subst, Option, none, some, List, [], ◌∷◌, Text,
  arith, length, le→leb, min,
}
use vigil_apex_f.AuditChain.Platform.{Platform}
use vigil_apex_f.AuditChain.Chain.{IsChain}
use vigil_apex_f.AuditChain.Store.{Row, Table, select_range}
use vigil_apex_f.AuditChain.Verify.{
  Sweep, Verdict, ok, broken, Break, hash_eq, check_row, check_rows, after_batch, verify_loop,
  verify,
}
use vigil_apex_f.AuditChain.Verify.Links.{Links, end_hash, Links-append}
use vigil_apex_f.AuditChain.Verify.Complete.{IsChain-Selected, batch-split, batch-length}

module _ (p : Platform) where
  -- A row that names a hash before it does not pass a check that expects none.
  check_row-prev_none :
      (s : Sweep) (r : Row) (h : Text)
      → s.prev ≡ none
      → r.prev_hash ≡ some h
      → (e : Break) × (check_row p s r ≡ broken e)
  unfolding check_row hash_eq
  check_row-prev_none s r h e f = go (check_row p s r) refl
    where
      go : (v : Verdict Sweep) → check_row p s r ≡ v → (e : Break) × (check_row p s r ≡ broken e)
      go (broken b) q = (b, q)
      go (ok s') q = ground arith

  check_rows-prev_none :
      (s : Sweep) (rows : List Row) (prev : Text) (seq : ℕ)
      → s.prev ≡ none
      → Links p (some prev) seq rows
      → 0 < length rows
      → (e : Break) × (check_rows p s rows ≡ broken e)
  unfolding check_rows
  check_rows-prev_none s [] prev seq e l h = absurd (omega arith)
  check_rows-prev_none s (r ∷ rows) prev seq e (f, l) h =
      let (b, q) = check_row-prev_none s r prev e f.prev_fits in (b, rw q refl)

after_batch-broken :
    (k b : ℕ) (s : Sweep) (v : Verdict Sweep) (e : Break) (again : Sweep → Option (Verdict ℕ))
    → 0 < k
    → v ≡ broken e
    → after_batch k b s v again ≡ some (broken e)
after_batch-broken zero b s v e again h q = absurd (omega arith)
after_batch-broken (suc k) b s v e again h q = rw q refl

end_hash-some :
    (prev : Option Text) (rows : List Row)
    → 0 < length rows
    → (h : Text) × (end_hash prev rows ≡ some h)
end_hash-some prev [] h = absurd (omega arith)
end_hash-some prev (r ∷ []) h = (r.body_hash, refl)
end_hash-some prev (r ∷ q ∷ rows) h = end_hash-some (some r.body_hash) (q ∷ rows) (omega arith)

verify_loop-broken :
    (p : Platform) (t : Table) (fuel from upper b : ℕ) (s : Sweep) (e : Break)
    → from ≤ upper
    → let rows = select_range from (min upper (from + b - 1)) t in
      0 < length rows
      → check_rows p s rows ≡ broken e
      → verify_loop p (suc fuel) from upper b s t ≡ some (broken e)
unfolding verify_loop
verify_loop-broken p t fuel from upper b s e le some_rows q =
    rw (le→leb from upper le) (after_batch-broken _ b s _ e _ some_rows q)

pub verify_mid_chain :
    (p : Platform) (t : Table) (from to batch_size : ℕ)
    → IsChain p t
    → 1 < from
    → from ≤ to
    → from ≤ length t
    → 1 ≤ batch_size
    → (e : Break) × (verify p from (some to) batch_size t ≡ some (broken e))
unfolding verify
verify_mid_chain p t from to b c one le within low =
    let k = from - 1 in
    let hi = min to (from + b - 1) in
    let before = IsChain-Selected p t k c in
    let first = select_range 1 k t in
    let rows = select_range (k + 1) hi t in
    let back : k + 1 ≡ from = omega (arith, one) in
    let at_most : k ≤ length t = omega (arith, within) in
    let k-le : k ≤ hi = omega (arith, one, le, low) in
    let whole =
      subst (Links p none 1) (batch-split p t c k hi at_most k-le)
        (IsChain-Selected p t hi c).linked in
    let (h, e) = end_hash-some none first (omega (arith, before.counted, one, within)) in
    let linked : Links p (some h) (1 + length first) rows =
      subst (λ o. Links p o (1 + length first) rows) e
        ((Links-append p none 1 first rows).0 whole).1 in
    let some_rows : 0 < length rows =
      omega (arith, batch-length p t c k hi at_most k-le, one, le, low, within) in
    let start : Sweep = record { prev = none; seq_expected = from; verified = 0 } in
    let (x, q) = check_rows-prev_none p start rows h (1 + length first) refl linked some_rows in
    let rounds : suc (to + 1) ≡ to + 2 = omega arith in
    let at_from : rows ≡ select_range from hi t = ap (λ j. select_range j hi t) back in
    (
      x,
      subst (λ f. verify_loop p f from to b start t ≡ some (broken x)) rounds
          (verify_loop-broken p t (to + 1) from to b start x le
            (subst (λ l. 0 < length l) at_from some_rows)
            (subst (λ l. check_rows p start l ≡ broken x) at_from q)),
    )

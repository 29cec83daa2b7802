-- ===== src/AuditChain/Verify/Complete.antt =====
-- HashChain.verify on a hash chain, from its first row.
use vigil_apex_f.Common.{
  ℕ, zero, suc, ◌+◌, ◌-◌, ◌≤◌, ◌<◌, ◌≡◌, refl, sym, ap, ◌∙◌, subst, Bool-cases, inl, inr, ◌&&◌,
  Option, none, some, List, [], ◌∷◌, ◌++◌, Text, arith, length, All-append, leb, ltb, min,
  length-append,
}
use vigil_apex_f.AuditChain.Platform.{Platform}
use vigil_apex_f.AuditChain.Chain.{IsChain, last_hash}
use vigil_apex_f.AuditChain.Store.{Row, Table, select_range, sort_rows}
use vigil_apex_f.AuditChain.Store.Ranges.{
  InRange, InRange-empty, InRange-select_range, select_range-split, select_range-inside,
  select_range-outside, insert_row_end,
}
use vigil_apex_f.AuditChain.Verify.{
  Sweep, Verdict, ok, check_rows, after_batch, or_max, verify_loop, verify,
}
use vigil_apex_f.AuditChain.Verify.Links.{
  Links, Fits, end_hash, sweep_after, check_rows_ok, Links-append,
}

pub end_hash_last :
    (prev : Option Text) (rows : List Row) (r : Row)
    → end_hash prev (rows ++ r ∷ []) ≡ some r.body_hash
end_hash_last prev [] r = refl
end_hash_last prev (x ∷ rows) r = end_hash_last (some x.body_hash) rows r

pub end_hash-append :
    (prev : Option Text) (xs ys : List Row)
    → end_hash prev (xs ++ ys) ≡ end_hash (end_hash prev xs) ys
end_hash-append prev [] ys = refl
end_hash-append prev (x ∷ xs) ys = end_hash-append (some x.body_hash) xs ys

pub InRange-mono :
    (lo hi hi' : ℕ) (rows : List Row) → hi ≤ hi' → InRange lo hi rows → InRange lo hi' rows
InRange-mono lo hi hi' [] le h = tt
InRange-mono lo hi hi' (r ∷ rows) le (hr, h) =
    ((hr.0, omega (arith, hr.1)), InRange-mono lo hi hi' rows le h)

module _ (p : Platform) where
  -- The rows of a chain up to a seq, as a query returns them.
  pub record Selected (t : Table) (hi : ℕ) (rows : List Row) : Type 0 where
    pub linked : Links p none 1 rows
    pub counted : length rows ≡ min hi (length t)
    pub bounded : InRange 1 (length t) rows
    pub ends : length t ≤ hi → end_hash none rows ≡ last_hash t

  pub IsChain-Selected : (t : Table) (hi : ℕ) → IsChain p t → Selected t hi (select_range 1 hi t)
  IsChain-Selected [] hi h =
      unfold select_range sort_rows in
      record { linked = tt; counted = omega arith; bounded = tt; ends = λ _. refl }
  IsChain-Selected (r ∷ t) hi (h, c) =
      let below = IsChain-Selected t hi c in
      elim (Bool-cases (leb 1 r.seq && leb r.seq hi)) [
        | inr out ↦ rw (select_range-outside 1 hi r t out) (record {
          linked = below.linked;
          counted = ground (arith, out, below.counted, h.seq_next);
          bounded = InRange-mono 1 (length t) (suc (length t)) _ (omega arith) below.bounded;
          ends = λ le. absurd (ground (arith, out, h.seq_next, le));
        })
        | inl inside ↦
            let rows = select_range 1 hi t in
            let e : select_range 1 hi (r ∷ t) ≡ rows ++ r ∷ [] =
              select_range-inside 1 hi r t (ground (arith, inside)) (ground (arith, inside))
              ∙ insert_row_end 1 (length t) r rows (omega (arith, h.seq_next)) below.bounded in
            let full : length t ≤ hi = ground (arith, inside, h.seq_next) in
            let fits : Fits p (end_hash none rows) (1 + length rows) r = record {
              seq_fits = omega (arith, h.seq_next, below.counted, full);
              hash_fits = rw (below.ends full) (sym h.hashed);
              prev_fits = h.prev_linked ∙ sym (below.ends full);
            } in
            rw e (record {
              linked = (Links-append p none 1 rows (r ∷ [])).1 (below.linked, (fits, tt));
              counted =
                  ground (arith, length-append rows (r ∷ []), below.counted, inside, h.seq_next);
              bounded =
                  All-append _ rows (r ∷ [])
                    (InRange-mono 1 (length t) (suc (length t)) rows (omega arith) below.bounded)
                    ((omega (arith, h.seq_next), omega (arith, h.seq_next)), tt);
              ends = λ _. end_hash_last none rows r;
            })
      ]

-- How a batch ends, by the number of its rows.
pub after_batch_cases :
    (k b : ℕ) (s s' : Sweep) (again : Sweep → Option (Verdict ℕ)) (result : Option (Verdict ℕ))
    → (k ≡ 0 → some (ok s.verified) ≡ result)
    → (0 < k → k < b → some (ok s'.verified) ≡ result)
    → (0 < k → b ≤ k → again s' ≡ result)
    → after_batch k b s (ok s') again ≡ result
after_batch_cases zero b s s' again result none' short full = none' refl
after_batch_cases (suc k) b s s' again result none' short full = elim (Bool-cases (ltb (suc k) b)) [
  | inl e ↦ rw e (short (omega arith) (ground (arith, e)))
  | inr e ↦ rw e (full (omega arith) (ground (arith, e)))
]

module _ (p : Platform) (t : Table) (c : IsChain p t) where
  -- The variables after the rows up to seq `k`.
  abbrev pub at : ℕ → Sweep
  at k = record { prev = end_hash none (select_range 1 k t); seq_expected = k + 1; verified = k }

  -- The batch from seq `k + 1` to `hi`: its number of rows, and what a pass over it does.
  module _ (k hi : ℕ) (at_most : k ≤ length t) (le : k ≤ hi) where
    pub batch-split : select_range 1 hi t ≡ select_range 1 k t ++ select_range (k + 1) hi t
    batch-split = select_range-split 1 k hi t (omega arith) le

    pub batch-length : k + length (select_range (k + 1) hi t) ≡ min hi (length t)
    batch-length = omega (
      arith,
      (IsChain-Selected p t k c).counted,
      (IsChain-Selected p t hi c).counted,
      ap length batch-split,
      length-append (select_range 1 k t) (select_range (k + 1) hi t),
    )

    pub batch-checked :
        check_rows p (at k) (select_range (k + 1) hi t)
        ≡ ok (sweep_after p (at k) (select_range (k + 1) hi t))
    batch-checked =
        let whole = subst (Links p none 1) batch-split (IsChain-Selected p t hi c).linked in
        let e : 1 + length (select_range 1 k t) ≡ k + 1 =
          omega (arith, (IsChain-Selected p t k c).counted, at_most) in
        check_rows_ok p (select_range (k + 1) hi t) (at k) (
          subst (λ j. Links p (end_hash none (select_range 1 k t)) j (select_range (k + 1) hi t)) e
            ((Links-append p none 1 (select_range 1 k t) _).0 whole).1)

    batch-at :
        k + length (select_range (k + 1) hi t) ≡ hi
        → sweep_after p (at k) (select_range (k + 1) hi t) ≡ at hi
    batch-at e =
        let prev =
          sym (end_hash-append none (select_range 1 k t) (select_range (k + 1) hi t))
          ∙ ap (end_hash none) (sym batch-split) in
        ground (arith, prev, e)

  verify_loop-at :
      (fuel upper b k : ℕ)
      → 1 ≤ b
      → k ≤ length t
      → k ≤ upper
      → upper < fuel + k
      → verify_loop p fuel (k + 1) upper b (at k) t ≡ some (ok (min upper (length t)))
  unfolding verify_loop
  verify_loop-at zero upper b k one low le more = absurd (omega arith)
  verify_loop-at (suc fuel) upper b k one low le more =
      let hi = min upper (k + 1 + b - 1) in
      let rows = select_range (k + 1) hi t in
      elim (Bool-cases (leb (k + 1) upper)) [
        | inr past ↦ rw past (ground (arith, past))
        | inl inside ↦
            let len = batch-length k hi low (ground (arith, inside, one)) in
            rw (inside, batch-checked k hi low (ground (arith, inside, one)))
              (after_batch_cases (length rows) b (at k) (sweep_after p (at k) rows) _ _
                (λ e. ap (λ n. some (ok n)) (ground (arith, inside, one, len, e)))
                (λ some_rows short.
                  ap (λ n. some (ok n)) (ground (arith, inside, one, len, some_rows, short)))
                (λ some_rows full.
                  rw
                    (batch-at k hi low (ground (arith, inside, one))
                      (ground (arith, inside, one, len, full)))
                    (verify_loop-at fuel upper b hi one (ground (arith, inside, one, len, full))
                      (omega arith) (ground (arith, inside, one, len, full)))))
      ]

-- A sweep of a hash chain from its first row, in batches of any size, accepts every row up to its
-- upper end, and never runs out of rounds.
pub verify_complete :
    (p : Platform) (t : Table) (to : Option ℕ) (batch_size : ℕ)
    → IsChain p t
    → 1 ≤ batch_size
    → verify p 1 to batch_size t ≡ some (ok (min (or_max to) (length t)))
unfolding verify
verify_complete p t to b c one =
    let e : select_range 1 0 t ≡ [] =
      InRange-empty 1 0 _ (InRange-select_range 1 0 t) (omega arith) in
    let start : at p t c 0 ≡ record { prev = none; seq_expected = 1; verified = 0 } =
      ground (arith, e) in
    subst
      (λ s.
        verify_loop p (or_max to + 2) 1 (or_max to) b s t ≡ some (ok (min (or_max to) (length t))))
      start
      (verify_loop-at p t c (or_max to + 2) (or_max to) b 0 one (omega arith) (omega arith)
        (omega arith))

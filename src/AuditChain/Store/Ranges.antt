-- ===== src/AuditChain/Store/Ranges.antt =====
-- Selections by seq: their bounds, and how two that meet make one.
use vigil_apex_f.Common.{
  ℕ, ◌+◌, ◌≤◌, ◌<◌, ◌≡◌, refl, Bool-cases, inl, inr, true, false, ◌&&◌, List, [], ◌∷◌, ◌++◌, arith,
  All, leb, ltb,
}
use vigil_apex_f.AuditChain.Store.{Row, Table, insert_row, sort_rows, select_range}

abbrev pub InRange : ℕ → ℕ → List Row → Type 0
InRange lo hi = All (λ r. (lo ≤ r.seq) × (r.seq ≤ hi))

InRange-insert_row :
    (lo hi : ℕ) (r : Row) (rows : List Row)
    → lo ≤ r.seq
    → r.seq ≤ hi
    → InRange lo hi rows
    → InRange lo hi (insert_row r rows)
unfolding insert_row
InRange-insert_row lo hi r [] p q h = ((p, q), tt)
InRange-insert_row lo hi r (x ∷ rows) p q (hx, h) = elim (Bool-cases (ltb x.seq r.seq)) [
  | inl below ↦ rw below (hx, InRange-insert_row lo hi r rows p q h)
  | inr above ↦ rw above ((p, q), (hx, h))
]

-- How a selection grows with the table.
module _ (lo hi : ℕ) (r : Row) (t : Table) where
  pub select_range-inside :
      lo ≤ r.seq → r.seq ≤ hi → select_range lo hi (r ∷ t) ≡ insert_row r (select_range lo hi t)
  unfolding select_range sort_rows
  select_range-inside p q =
      let e : (leb lo r.seq && leb r.seq hi) ≡ true = ground arith in ground (arith, e)

  pub select_range-outside :
      (leb lo r.seq && leb r.seq hi) ≡ false → select_range lo hi (r ∷ t) ≡ select_range lo hi t
  unfolding select_range sort_rows
  select_range-outside e = ground (arith, e)

pub InRange-select_range : (lo hi : ℕ) (t : Table) → InRange lo hi (select_range lo hi t)
InRange-select_range lo hi [] = unfold select_range sort_rows in tt
InRange-select_range lo hi (r ∷ t) = elim (Bool-cases (leb lo r.seq && leb r.seq hi)) [
  | inl e ↦ rw (select_range-inside lo hi r t (ground (arith, e)) (ground (arith, e))) (
      InRange-insert_row lo hi r (select_range lo hi t) (ground (arith, e)) (ground (arith, e))
        (InRange-select_range lo hi t))
  | inr e ↦ rw (select_range-outside lo hi r t e) (InRange-select_range lo hi t)
]

-- An insertion below all rows of the second list goes into the first, and one above all rows of the
-- first goes into the second.
insert_row-append_left :
    (lo hi : ℕ) (r : Row) (xs ys : List Row)
    → r.seq < lo
    → InRange lo hi ys
    → insert_row r (xs ++ ys) ≡ insert_row r xs ++ ys
unfolding insert_row
insert_row-append_left lo hi r [] [] p h = refl
insert_row-append_left lo hi r [] (y ∷ ys) p (hy, h) = ground arith
insert_row-append_left lo hi r (x ∷ xs) ys p h =
    ground (arith, insert_row-append_left lo hi r xs ys p h)

pub insert_row-append_right :
    (lo hi : ℕ) (r : Row) (xs ys : List Row)
    → hi < r.seq
    → InRange lo hi xs
    → insert_row r (xs ++ ys) ≡ xs ++ insert_row r ys
unfolding insert_row
insert_row-append_right lo hi r [] ys p h = refl
insert_row-append_right lo hi r (x ∷ xs) ys p (hx, h) =
    ground (arith, hx.1, insert_row-append_right lo hi r xs ys p h)

pub select_range-split :
    (lo mid hi : ℕ) (t : Table)
    → lo ≤ mid + 1
    → mid ≤ hi
    → select_range lo hi t ≡ select_range lo mid t ++ select_range (mid + 1) hi t
select_range-split lo mid hi [] p q = unfold select_range sort_rows in refl
select_range-split lo mid hi (r ∷ t) p q = elim (Bool-cases (leb lo r.seq && leb r.seq mid)) [
  | inl low ↦
      rw
        (
          select_range-inside lo hi r t (ground (arith, low)) (ground (arith, low)),
          select_range-inside lo mid r t (ground (arith, low)) (ground (arith, low)),
          select_range-outside (mid + 1) hi r t (ground (arith, low)),
          select_range-split lo mid hi t p q,
        )
        (insert_row-append_left (mid + 1) hi r (select_range lo mid t) (select_range (mid + 1) hi t)
          (ground (arith, low)) (InRange-select_range (mid + 1) hi t))
  | inr high ↦ elim (Bool-cases (leb (mid + 1) r.seq && leb r.seq hi)) [
    | inl up ↦
        rw
          (
            select_range-inside lo hi r t (ground (arith, up)) (ground (arith, up)),
            select_range-inside (mid + 1) hi r t (ground (arith, up)) (ground (arith, up)),
            select_range-outside lo mid r t high,
            select_range-split lo mid hi t p q,
          )
          (insert_row-append_right lo mid r (select_range lo mid t) (select_range (mid + 1) hi t)
            (ground (arith, up)) (InRange-select_range lo mid t))
    | inr out ↦
        rw
          (
            select_range-outside lo hi r t (ground (arith, high, out)),
            select_range-outside lo mid r t high,
            select_range-outside (mid + 1) hi r t out,
          )
          (select_range-split lo mid hi t p q)
  ]
]

pub insert_row_end :
    (lo hi : ℕ) (r : Row) (rows : List Row)
    → hi < r.seq
    → InRange lo hi rows
    → insert_row r rows ≡ rows ++ r ∷ []
unfolding insert_row
insert_row_end lo hi r [] p h = refl
insert_row_end lo hi r (x ∷ rows) p (hx, h) = ground (arith, hx.1, insert_row_end lo hi r rows p h)

pub InRange-empty : (lo hi : ℕ) (rows : List Row) → InRange lo hi rows → hi < lo → rows ≡ []
InRange-empty lo hi [] h lt = refl
InRange-empty lo hi (r ∷ rows) (hr, h) lt = absurd (omega (arith, hr.0, hr.1))

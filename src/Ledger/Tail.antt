-- ===== src/Ledger/Tail.antt =====
-- HashChain.bodyHashAt, against the rows of a verified range.
use vigil_apex_f.Common.{
  ℕ, suc, ◌+◌, ◌≡◌, ◌≤◌, inl, inr, Bool, true, ◌&&◌, Option, none, some, List, [], ◌∷◌, Text, Any,
  ◌==◌, leb, ltb, arith, keep, length, Bool-cases,
}
use vigil_apex_f.AuditChain.Platform.{Platform}
use vigil_apex_f.AuditChain.Store.{Row, Table, body_hash_at, insert_row, sort_rows, select_range}
use vigil_apex_f.AuditChain.Verify.Links.{Links, end_hash}

module _ (Q : Row → Type 0) where
  Any-insert_row : (r : Row) (rows : List Row) → Any Q (r ∷ rows) → Any Q (insert_row r rows)
  unfolding insert_row
  Any-insert_row r [] h = h
  Any-insert_row r (q ∷ rows) h = elim (Bool-cases (ltb q.seq r.seq)) [
    | inl below ↦ rw below (elim h [
      | inl x ↦ inr (Any-insert_row r rows (inl x))
      | inr y ↦ elim y [ inl z ↦ inl z | inr z ↦ inr (Any-insert_row r rows (inr z)) ]
    ])
    | inr above ↦ rw above h
  ]

  Any-sort_rows : (rows : List Row) → Any Q rows → Any Q (sort_rows rows)
  unfolding sort_rows
  Any-sort_rows [] h = h
  Any-sort_rows (r ∷ rows) (inl h) = Any-insert_row r (sort_rows rows) (inl h)
  Any-sort_rows (r ∷ rows) (inr h) = Any-insert_row r (sort_rows rows) (inr (Any-sort_rows rows h))

  Any-keep :
      (f : Row → Bool)
      → ((r : Row) → Q r → f r ≡ true)
      → (rows : List Row) → Any Q rows
      → Any Q (keep f rows)
  Any-keep f fits [] h = h
  Any-keep f fits (r ∷ rows) (inl h) = rw (fits r h) (inl h)
  Any-keep f fits (r ∷ rows) (inr h) = elim (Bool-cases (f r)) [
    | inl on ↦ rw on (inr (Any-keep f fits rows h))
    | inr off ↦ rw off (Any-keep f fits rows h)
  ]

abbrev IsAt : ℕ → Text → Row → Type 0
IsAt n h r = (r.seq ≡ n) × (r.body_hash ≡ h)

body_hash_at-Any : (n : ℕ) (h : Text) (t : Table) → body_hash_at n t ≡ some h → Any (IsAt n h) t
unfolding body_hash_at
body_hash_at-Any n h [] e = cc e
body_hash_at-Any n h (r ∷ t) e = elim (Bool-cases (r.seq == n)) [
  | inl here ↦ inl (ground (arith, here), cc (rw here at e))
  | inr later ↦ inr (body_hash_at-Any n h t (rw later at e))
]

module _ (p : Platform) where
  Links-end_hash :
      (prev : Option Text) (k n : ℕ) (h : Text) (rows : List Row)
      → Links p prev k rows
      → k + length rows ≡ suc n
      → Any (IsAt n h) rows
      → end_hash prev rows ≡ some h
  Links-end_hash prev k n h [] l e x = elim x [ ]
  Links-end_hash prev k n h (r ∷ []) l e (inl (at, b)) = cc b
  Links-end_hash prev k n h (r ∷ q ∷ rows) l e (inl (at, b)) =
      absurd (omega (arith, l.0.seq_fits, at, e))
  Links-end_hash prev k n h (r ∷ rows) l e (inr x) =
      Links-end_hash (some r.body_hash) (k + 1) n h rows l.1 (omega (arith, e)) x

  -- The hash at the last seq of a linked range is the hash of its last row.
  pub body_hash_at-end_hash :
      (n : ℕ) (h : Text) (t : Table)
      → 1 ≤ n
      → Links p none 1 (select_range 1 n t)
      → length (select_range 1 n t) ≡ n
      → body_hash_at n t ≡ some h
      → end_hash none (select_range 1 n t) ≡ some h
  body_hash_at-end_hash n h t one l counted e =
      Links-end_hash none 1 n h (select_range 1 n t) l (omega (arith, counted)) (
        unfold select_range in
        Any-sort_rows (IsAt n h) _ (
          Any-keep (IsAt n h) (λ r. leb 1 r.seq && leb r.seq n) (λ r q. ground (arith, q.0, one)) t
            (body_hash_at-Any n h t e)))

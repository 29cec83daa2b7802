-- ===== src/AuditChain/Verify/Links.antt =====
-- Runs of linked rows, and what one pass over the rows accepts.
use vigil_apex_f.Common.{
  ℕ, ◌+◌, ◌≤◌, ◌<◌, All, subst, subst, ◌≡◌, ◌↔◌, refl, sym, ap, ◌∙◌, true, Option, none, some, List,
  [], ◌∷◌, ◌++◌, Text, text_eq_iff, arith, length,
}
use vigil_apex_f.AuditChain.Platform.{Platform}
use vigil_apex_f.AuditChain.Canonical.{body_hash, row_hash}
use vigil_apex_f.AuditChain.Store.{Row, event_of}
use vigil_apex_f.AuditChain.Verify.{Sweep, Verdict, ok, broken, hash_eq, check_row, check_rows}

pub hash_eq_iff : (a b : Option Text) → (hash_eq a b ≡ true) ↔ (a ≡ b)
unfolding hash_eq
hash_eq_iff none none = ground arith
hash_eq_iff none (some t) = ground arith
hash_eq_iff (some s) none = ground arith
hash_eq_iff (some s) (some t) = ground (arith, text_eq_iff s t)

-- The hash of the last of the rows, or what stood before them.
abbrev pub end_hash : Option Text → List Row → Option Text
end_hash prev [] = prev
end_hash prev (r ∷ rows) = end_hash (some r.body_hash) rows

module _ (p : Platform) where
  pub record Fits (prev : Option Text) (seq : ℕ) (r : Row) : Type 0 where
    pub seq_fits : r.seq ≡ seq
    pub hash_fits : row_hash p prev (body_hash p (event_of r)) ≡ r.body_hash
    pub prev_fits : r.prev_hash ≡ prev

  -- Rows in ascending order that continue one another, from a hash and a seq on.
  abbrev pub Links : Option Text → ℕ → List Row → Type 0
  Links prev seq [] = Unit
  Links prev seq (r ∷ rows) = Fits prev seq r × Links (some r.body_hash) (seq + 1) rows

  abbrev pub sweep_after : Sweep → List Row → Sweep
  sweep_after s rows = record {
    prev = end_hash s.prev rows;
    seq_expected = s.seq_expected + length rows;
    verified = s.verified + length rows;
  }

  sweep_after-cons :
      (s : Sweep) (r : Row) (rows : List Row)
      → sweep_after (sweep_after s (r ∷ [])) rows ≡ sweep_after s (r ∷ rows)
  sweep_after-cons s r rows = ground arith

  check_row-eq-ok :
      (s s' : Sweep) (r : Row)
      → check_row p s r ≡ ok s'
      → Fits s.prev s.seq_expected r × (s' ≡ sweep_after s (r ∷ []))
  unfolding check_row
  check_row-eq-ok s s' r h = ground (
    arith,
    text_eq_iff (row_hash p s.prev (body_hash p (event_of r))) r.body_hash,
    hash_eq_iff r.prev_hash s.prev,
  )

  check_row_ok :
      (s : Sweep) (r : Row)
      → Fits s.prev s.seq_expected r
      → check_row p s r ≡ ok (sweep_after s (r ∷ []))
  unfolding check_row
  check_row_ok s r f = ground (
    arith,
    f.seq_fits,
    f.hash_fits,
    f.prev_fits,
    text_eq_iff (row_hash p s.prev (body_hash p (event_of r))) r.body_hash,
    hash_eq_iff r.prev_hash s.prev,
  )

  pub check_rows-eq-ok :
      (rows : List Row) (s s' : Sweep)
      → check_rows p s rows ≡ ok s'
      → Links s.prev s.seq_expected rows × (s' ≡ sweep_after s rows)
  unfolding check_rows
  check_rows-eq-ok [] s s' h = (tt, ground arith)
  check_rows-eq-ok (r ∷ rows) s s' h = go (check_row p s r) refl (λ s1. check_rows-eq-ok rows s1 s')
    where
      go :
          (v : Verdict Sweep)
          → check_row p s r ≡ v
          → ((s1 : Sweep)
              → check_rows p s1 rows ≡ ok s'
              → Links s1.prev s1.seq_expected rows × (s' ≡ sweep_after s1 rows))
          → Links s.prev s.seq_expected (r ∷ rows) × (s' ≡ sweep_after s (r ∷ rows))
      go (broken b) e ih = ground (arith, rw (e, check_rows) at h)
      go (ok s1) e ih =
          let (f, e1) = check_row-eq-ok s s1 r e in
          let h1 : check_rows p s1 rows ≡ ok s' = rw (e, check_rows) at h in
          let (l, e2) = ih (sweep_after s (r ∷ [])) (rw e1 at h1) in
          ((f, l), e2 ∙ sweep_after-cons s r rows)

  pub check_rows_ok :
      (rows : List Row) (s : Sweep)
      → Links s.prev s.seq_expected rows
      → check_rows p s rows ≡ ok (sweep_after s rows)
  unfolding check_rows
  check_rows_ok [] s l = ground arith
  check_rows_ok (r ∷ rows) s (f, l) =
      rw (check_row_ok s r f)
        (check_rows_ok rows (sweep_after s (r ∷ [])) l ∙ ap ok (sweep_after-cons s r rows))

  -- A run of links is the links of its two parts.
  pub Links-append :
      (prev : Option Text) (seq : ℕ) (xs ys : List Row)
      → Links prev seq (xs ++ ys)
        ↔ (Links prev seq xs × Links (end_hash prev xs) (seq + length xs) ys)
  Links-append prev seq [] ys =
      let e : seq ≡ seq + 0 = omega arith in
      (λ l. (tt, subst (λ k. Links prev k ys) e l), λ l. subst (λ k. Links prev k ys) (sym e) l.1)
  Links-append prev seq (x ∷ xs) ys =
      let e : seq + 1 + length xs ≡ seq + length (x ∷ xs) = omega arith in
      let (to, from) = Links-append (some x.body_hash) (seq + 1) xs ys in
      (
        λ l.
            let (lx, ly) = to l.1 in
            ((l.0, lx), subst (λ k. Links (end_hash (some x.body_hash) xs) k ys) e ly),
        λ l. (
          l.0.0,
          from (l.0.1, subst (λ k. Links (end_hash (some x.body_hash) xs) k ys) (sym e) l.1),
        ),
      )

  -- Linked rows that do not go past a seq are no more than the seqs up to it.
  pub Links-length-le :
      (prev : Option Text) (seq hi : ℕ) (rows : List Row)
      → Links prev seq rows
      → All (λ r. r.seq ≤ hi) rows
      → seq ≤ hi + 1
      → seq + length rows ≤ hi + 1
  Links-length-le prev seq hi [] l h q = omega (arith, q)
  Links-length-le prev seq hi (r ∷ rows) (f, l) (hr, h) q = omega (
    arith,
    Links-length-le (some r.body_hash) (seq + 1) hi rows l h (omega (arith, f.seq_fits, hr)),
  )

  -- The rows of a run have the seqs from its first one on.
  pub Links-lt :
      (prev : Option Text) (seq : ℕ) (rows : List Row)
      → Links prev seq rows
      → All (λ r. r.seq < seq + length rows) rows
  Links-lt prev seq [] l = tt
  Links-lt prev seq (r ∷ rows) (f, l) =
      let e : seq + 1 + length rows ≡ seq + length (r ∷ rows) = omega arith in
      (
        omega (arith, f.seq_fits),
        subst (λ k. All (λ q. q.seq < k) rows) e (Links-lt (some r.body_hash) (seq + 1) rows l),
      )

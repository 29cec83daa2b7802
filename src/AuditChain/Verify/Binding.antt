-- ===== src/AuditChain/Verify/Binding.antt =====
-- What a verified tail hash binds.
use vigil_apex_f.Common.{
  ℕ, ◌+◌, ◌≤◌, ◌≡◌, refl, sym, ap, ◌∙◌, ◌⊎◌, Bool-cases, inl, inr, Option, none, some, List, [],
  ◌∷◌, ◌++◌, Text, arith, length, length-append, text_eq, text_eq_iff,
}
use vigil_apex_f.AuditChain.Platform.{Platform, Laws, Collision}
use vigil_apex_f.AuditChain.Canonical.{canonicalise, body_hash, row_hash, hash_or_zeros}
use vigil_apex_f.AuditChain.Store.{Row, Table, event_of, select_range}
use vigil_apex_f.AuditChain.Verify.{ok, verify}
use vigil_apex_f.AuditChain.Verify.Links.{Links, end_hash}
use vigil_apex_f.AuditChain.Verify.Sound.{verify_sound}

append-injective : (a c b d : Text) → length b ≡ length d → a ++ b ≡ c ++ d → (a ≡ c) × (b ≡ d)
append-injective [] [] b d n e = (refl, e)
append-injective [] (y ∷ c) b d n e = absurd (omega (arith, n, ap length e, length-append c d))
append-injective (x ∷ a) [] b d n e = absurd (omega (arith, n, ap length e, length-append a b))
append-injective (x ∷ a) (y ∷ c) b d n e =
    let (e0, e1) = append-injective a c b d n (cc) in (cc, e1)

module _ (p : Platform) where
  -- Row by row, the same canonical lines.
  abbrev pub SameLines : List Row → List Row → Type 0
  SameLines [] [] = Unit
  SameLines [] (q ∷ ys) = ⊥
  SameLines (r ∷ xs) [] = ⊥
  SameLines (r ∷ xs) (q ∷ ys) =
      (canonicalise p (event_of r) ≡ canonicalise p (event_of q)) × SameLines xs ys

module _ (p : Platform) (laws : Laws p) where
  sha256_cases : (s t : Text) → p.sha256 s ≡ p.sha256 t → (s ≡ t) ⊎ Collision p
  sha256_cases s t e = elim (Bool-cases (text_eq s t)) [
    | inl same ↦ inl ((text_eq_iff s t).0 same)
    | inr other ↦ inr (s, t, other, e)
  ]

  -- One row hash has one previous hash and one line, or shows a collision.
  pub row_hash_cases :
      (prev prev' : Option Text) (r q : Row)
      → row_hash p prev (body_hash p (event_of r)) ≡ row_hash p prev' (body_hash p (event_of q))
      → ((hash_or_zeros p prev ≡ hash_or_zeros p prev')
          × (canonicalise p (event_of r) ≡ canonicalise p (event_of q)))
        ⊎ Collision p
  unfolding row_hash body_hash
  row_hash_cases prev prev' r q e = elim (sha256_cases _ _ e) [
    | inr hit ↦ inr hit
    | inl line ↦
        let (e0, e1) =
          append-injective (hash_or_zeros p prev) (hash_or_zeros p prev') _ _
            (omega (
              arith,
              laws.sha256_length (canonicalise p (event_of r)),
              laws.sha256_length (canonicalise p (event_of q)),
            ))
            line in
        elim (sha256_cases _ _ (ground (arith, e1))) [
          | inr hit ↦ inr hit
          | inl same ↦ inl (e0, same)
        ]
  ]

  Links-bind :
      (a b : Text) (seq : ℕ) (xs ys : List Row)
      → Links p (some a) seq xs
      → Links p (some b) seq ys
      → length xs ≡ length ys
      → end_hash (some a) xs ≡ end_hash (some b) ys
      → ((a ≡ b) × SameLines p xs ys) ⊎ Collision p
  Links-bind a b seq [] [] lx ly n e = inl (ground arith, tt)
  Links-bind a b seq [] (q ∷ ys) lx ly n e = absurd (omega arith)
  Links-bind a b seq (r ∷ xs) [] lx ly n e = absurd (omega arith)
  Links-bind a b seq (r ∷ xs) (q ∷ ys) (fr, lx) (fq, ly) n e =
      elim (Links-bind r.body_hash q.body_hash (seq + 1) xs ys lx ly (omega (arith, n)) e) [
        | inr hit ↦ inr hit
        | inl (same, rest) ↦
            elim (row_hash_cases (some a) (some b) r q (fr.hash_fits ∙ same ∙ sym fq.hash_fits)) [
              | inr hit ↦ inr hit
              | inl (e0, line) ↦ inl (e0, (line, rest))
            ]
      ]

  Links-bind_first :
      (seq : ℕ) (xs ys : List Row)
      → Links p none seq xs
      → Links p none seq ys
      → length xs ≡ length ys
      → end_hash none xs ≡ end_hash none ys
      → SameLines p xs ys ⊎ Collision p
  Links-bind_first seq [] [] lx ly n e = inl tt
  Links-bind_first seq [] (q ∷ ys) lx ly n e = absurd (omega arith)
  Links-bind_first seq (r ∷ xs) [] lx ly n e = absurd (omega arith)
  Links-bind_first seq (r ∷ xs) (q ∷ ys) (fr, lx) (fq, ly) n e =
      elim (Links-bind r.body_hash q.body_hash (seq + 1) xs ys lx ly (omega (arith, n)) e) [
        | inr hit ↦ inr hit
        | inl (same, rest) ↦
            elim (row_hash_cases none none r q (fr.hash_fits ∙ same ∙ sym fq.hash_fits)) [
              | inr hit ↦ inr hit
              | inl (e0, line) ↦ inl (line, rest)
            ]
      ]

  -- Tamper evidence, on a platform with the stated laws: two tables from which sweeps in batches of
  -- positive sizes accepted `n` rows, and whose `n`th rows have the
  -- same hash, hold the same canonical lines at the seqs 1 to n, or two texts with one digest are at
  -- hand.
  pub verify-binding :
      (t u : Table) (to to' : Option ℕ) (b b' n : ℕ)
      → 1 ≤ b
      → 1 ≤ b'
      → verify p 1 to b t ≡ some (ok n)
      → verify p 1 to' b' u ≡ some (ok n)
      → end_hash none (select_range 1 n t) ≡ end_hash none (select_range 1 n u)
      → SameLines p (select_range 1 n t) (select_range 1 n u) ⊎ Collision p
  verify-binding t u to to' b b' n one one' ht hu e =
      let (lt, nt) = verify_sound p t to b n one ht in
      let (lu, nu) = verify_sound p u to' b' n one' hu in
      Links-bind_first 1 (select_range 1 n t) (select_range 1 n u) lt lu (nt ∙ sym nu) e

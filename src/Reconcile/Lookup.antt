-- ===== src/Reconcile/Lookup.antt =====
-- What the reconciler's map answers for a seq, against the list of witnesses it was filled from.
use vigil_apex_f.Common.{
  ℕ, ◌≡◌, ◌≢◌, refl, ap, ◌∙◌, ◌⊎◌, inl, inr, some, List, [], ◌∷◌, ◌++◌, Text, All, arith, map_set,
  map_get, to_lower, map_get-map_set_same, map_get-map_set_other,
}
use vigil_apex_f.Reconcile.{FabricWitnessRow, fill_fabric}

abbrev pub Avoids : ℕ → List FabricWitnessRow → Type 0
Avoids n = All (λ f. f.seq ≢ n)

-- The last witness of the list with seq `n` is `f`.
pub record IsLast (n : ℕ) (f : FabricWitnessRow) (fs : List FabricWitnessRow) : Type 0 where
  pub front : List FabricWitnessRow
  pub back : List FabricWitnessRow
  pub split : fs ≡ front ++ f ∷ back
  pub at_seq : f.seq ≡ n
  pub avoided : Avoids n back

pub IsLast-cons :
    (n : ℕ) (g f : FabricWitnessRow) (fs : List FabricWitnessRow)
    → IsLast n f fs
    → IsLast n f (g ∷ fs)
IsLast-cons n g f fs l = record {
  front = g ∷ l.front;
  back = l.back;
  split = cc l.split;
  at_seq = l.at_seq;
  avoided = l.avoided;
}

abbrev pub Answer : ℕ → List (ℕ × Text) → List FabricWitnessRow → Type 0
Answer n m fs =
    (Avoids n fs × (map_get n (fill_fabric m fs) ≡ map_get n m))
    ⊎ ((f : FabricWitnessRow) × IsLast n f fs
        × (map_get n (fill_fabric m fs) ≡ some (to_lower f.body_hash)))

-- No witness has the seq and the map answers as before, or it answers with the last one that has it.
pub map_get-fill_fabric : (n : ℕ) (m : List (ℕ × Text)) (fs : List FabricWitnessRow) → Answer n m fs
unfolding fill_fabric
map_get-fill_fabric n m [] = inl (tt, refl)
map_get-fill_fabric n m (f ∷ fs) =
    go (map_get-fill_fabric n (map_set f.seq (to_lower f.body_hash) m) fs)
  where
    first :
        Avoids n fs
        → (map_get n (fill_fabric (map_set f.seq (to_lower f.body_hash) m) fs)
            ≡ map_get n (map_set f.seq (to_lower f.body_hash) m))
        → (f.seq ≡ n) ⊎ (f.seq ≢ n)
        → Answer n m (f ∷ fs)
    first off e (inl at) = inr (
      f,
      record { front = []; back = fs; split = refl; at_seq = at; avoided = off },
      e ∙ cc (at, map_get-map_set_same n (to_lower f.body_hash) m),
    )
    first off e (inr not_at) =
        inl ((not_at, off), e ∙ map_get-map_set_other n f.seq (to_lower f.body_hash) m not_at)

    go : Answer n (map_set f.seq (to_lower f.body_hash) m) fs → Answer n m (f ∷ fs)
    go (inl (off, e)) = first off e (ground arith)
    go (inr (g, l, e)) = inr (g, IsLast-cons n f g fs l, e)

avoided-fill_fabric :
    (n : ℕ) (m : List (ℕ × Text)) (fs : List FabricWitnessRow)
    → Avoids n fs
    → map_get n (fill_fabric m fs) ≡ map_get n m
unfolding fill_fabric
avoided-fill_fabric n m [] off = refl
avoided-fill_fabric n m (f ∷ fs) (off, rest) =
    avoided-fill_fabric n (map_set f.seq (to_lower f.body_hash) m) fs rest
    ∙ map_get-map_set_other n f.seq (to_lower f.body_hash) m off

split-fill_fabric :
    (n : ℕ) (m : List (ℕ × Text)) (front : List FabricWitnessRow) (f : FabricWitnessRow)
    (back : List FabricWitnessRow)
    → f.seq ≡ n
    → Avoids n back
    → map_get n (fill_fabric m (front ++ f ∷ back)) ≡ some (to_lower f.body_hash)
unfolding fill_fabric
split-fill_fabric n m [] f back at off =
    avoided-fill_fabric n (map_set f.seq (to_lower f.body_hash) m) back off
    ∙ cc (at, map_get-map_set_same n (to_lower f.body_hash) m)
split-fill_fabric n m (g ∷ front) f back at off =
    split-fill_fabric n (map_set g.seq (to_lower g.body_hash) m) front f back at off

-- The map answers with the last witness of the seq.
pub IsLast-fill_fabric :
    (n : ℕ) (m : List (ℕ × Text)) (f : FabricWitnessRow) (fs : List FabricWitnessRow)
    → IsLast n f fs
    → map_get n (fill_fabric m fs) ≡ some (to_lower f.body_hash)
IsLast-fill_fabric n m f fs l =
    ap (λ gs. map_get n (fill_fabric m gs)) l.split
    ∙ split-fill_fabric n m l.front f l.back l.at_seq l.avoided

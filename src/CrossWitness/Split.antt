-- ===== src/CrossWitness/Split.antt =====
-- One sweep of the cross-witness verifier over two neighbouring ranges.
use vigil_apex_f.Common.{
  ℕ, ◌+◌, ◌≤◌, ◌<◌, ◌≡◌, ◌≢◌, refl, sym, ap, ◌∙◌, ◌⊎◌, inl, inr, Option, none, some, List, [], ◌∷◌,
  ◌++◌, map, Text, All, arith, length, length-append, map_set, map_get, to_lower, text_eq,
  map_get-map_set_same, map_get-map_set_other, Bool-cases,
}
use vigil_apex_f.AuditChain.Store.{Row, Table, select_range}
use vigil_apex_f.AuditChain.Store.Ranges.{InRange, InRange-select_range, select_range-split}
use vigil_apex_f.Reconcile.{
  ActionsRow, FabricWitnessRow, Missing, Divergent, fill_fabric, compare_fabric, push_row,
}
use vigil_apex_f.Reconcile.Lookup.{Avoids}
use vigil_apex_f.CrossWitness.{CrossWitnessReport, action_of, sweep, join}

-- The bridge returns the commitments of the range, and those of a range are those of its parts.
pub record IsBridge (list_commitments : ℕ → ℕ → List FabricWitnessRow) : Type 0 where
  pub inside : (lo hi : ℕ) → All (λ f. (lo ≤ f.seq) × (f.seq ≤ hi)) (list_commitments lo hi)
  pub parts :
      (lo mid hi : ℕ)
      → lo ≤ mid + 1
      → mid ≤ hi
      → list_commitments lo hi ≡ list_commitments lo mid ++ list_commitments (mid + 1) hi

abbrev Entries : Type 0
Entries = List (ℕ × Text)

fill_fabric-append :
    (m : Entries) (xs ys : List FabricWitnessRow)
    → fill_fabric m (xs ++ ys) ≡ fill_fabric (fill_fabric m xs) ys
unfolding fill_fabric
fill_fabric-append m [] ys = refl
fill_fabric-append m (x ∷ xs) ys = fill_fabric-append (map_set x.seq (to_lower x.body_hash) m) xs ys

map_set-agree :
    (n key : ℕ) (v : Text) (m m' : Entries)
    → map_get n m ≡ map_get n m'
    → (key ≡ n) ⊎ (key ≢ n)
    → map_get n (map_set key v m) ≡ map_get n (map_set key v m')
map_set-agree n key v m m' e (inl same) =
    cc (same, map_get-map_set_same n v m, map_get-map_set_same n v m')
map_set-agree n key v m m' e (inr apart) =
    map_get-map_set_other n key v m apart ∙ e ∙ sym (map_get-map_set_other n key v m' apart)

-- A lookup depends on the earlier entries only through its own key.
fill_fabric-agree :
    (n : ℕ) (m m' : Entries) (fs : List FabricWitnessRow)
    → map_get n m ≡ map_get n m'
    → map_get n (fill_fabric m fs) ≡ map_get n (fill_fabric m' fs)
unfolding fill_fabric
fill_fabric-agree n m m' [] e = e
fill_fabric-agree n m m' (f ∷ fs) e =
    fill_fabric-agree n (map_set f.seq (to_lower f.body_hash) m)
      (map_set f.seq (to_lower f.body_hash) m') fs
      (map_set-agree n f.seq (to_lower f.body_hash) m m' e (ground arith))

fill_fabric-Avoids :
    (n : ℕ) (m : Entries) (fs : List FabricWitnessRow)
    → Avoids n fs
    → map_get n (fill_fabric m fs) ≡ map_get n m
unfolding fill_fabric
fill_fabric-Avoids n m [] off = refl
fill_fabric-Avoids n m (f ∷ fs) (off, rest) =
    fill_fabric-Avoids n (map_set f.seq (to_lower f.body_hash) m) fs rest
    ∙ map_get-map_set_other n f.seq (to_lower f.body_hash) m off

Avoids-outside :
    (n lo hi : ℕ) (fs : List FabricWitnessRow)
    → All (λ f. (lo ≤ f.seq) × (f.seq ≤ hi)) fs
    → (n < lo) ⊎ (hi < n)
    → Avoids n fs
Avoids-outside n lo hi [] h out = tt
Avoids-outside n lo hi (f ∷ fs) (h, hs) out =
    (λ e. ground (arith, h, e, out), Avoids-outside n lo hi fs hs out)

abbrev Pair : Type 0
Pair = List Missing × List Divergent

abbrev both : Pair → Pair → Pair
both (ms, ds) (ns, es) = (ms ++ ns, ds ++ es)

push_row-both :
    (a : ActionsRow) (o : Option Text) (x y : Pair)
    → push_row a o (both x y) ≡ both (push_row a o x) y
push_row-both a none (ms, ds) (ns, es) = refl
push_row-both a (some t) (ms, ds) (ns, es) = elim (Bool-cases (text_eq t (to_lower a.body_hash))) [
  | inl same ↦ rw same refl
  | inr apart ↦ rw apart refl
]

compare_fabric-append :
    (m : Entries) (xs ys : List ActionsRow)
    → compare_fabric m (xs ++ ys) ≡ both (compare_fabric m xs) (compare_fabric m ys)
unfolding compare_fabric
compare_fabric-append m [] ys = refl
compare_fabric-append m (a ∷ xs) ys =
    ap (push_row a (map_get a.seq m)) (compare_fabric-append m xs ys)
    ∙ push_row-both a (map_get a.seq m) (compare_fabric m xs) (compare_fabric m ys)

compare_fabric-agree :
    (m m' : Entries) (lo hi : ℕ) (rows : List Row)
    → InRange lo hi rows
    → ((n : ℕ) → lo ≤ n → n ≤ hi → map_get n m ≡ map_get n m')
    → compare_fabric m (map action_of rows) ≡ compare_fabric m' (map action_of rows)
unfolding compare_fabric
compare_fabric-agree m m' lo hi [] inside same = refl
compare_fabric-agree m m' lo hi (r ∷ rows) (h, hs) same =
    cc (same r.seq h.0 h.1, compare_fabric-agree m m' lo hi rows hs same)

-- Two reports agree in what they say of the rows of the table.
pub record SameRows (a b : CrossWitnessReport) : Type 0 where
  pub checked_same : a.checked ≡ b.checked
  pub missing_same : a.missing_from_fabric ≡ b.missing_from_fabric
  pub divergent_same : a.divergent_seqs ≡ b.divergent_seqs

map-append : (xs ys : List Row) → map action_of (xs ++ ys) ≡ map action_of xs ++ map action_of ys
map-append [] ys = refl
map-append (x ∷ xs) ys = ap (λ l. action_of x ∷ l) (map-append xs ys)

seqs-append :
    (xs ys : List Missing)
    → map (λ (m : Missing). m.seq) (xs ++ ys)
      ≡ map (λ (m : Missing). m.seq) xs ++ map (λ (m : Missing). m.seq) ys
seqs-append [] ys = refl
seqs-append (x ∷ xs) ys = ap (λ l. x.seq ∷ l) (seqs-append xs ys)

module _ (list_commitments : ℕ → ℕ → List FabricWitnessRow) (bridge : IsBridge list_commitments)
    (t : Table) where
  abbrev entries : ℕ → ℕ → Entries
  entries lo hi = fill_fabric [] (list_commitments lo hi)

  abbrev rows : ℕ → ℕ → List ActionsRow
  rows lo hi = map action_of (select_range lo hi t)

  -- The commitments of the other range do not change the lookups of a range.
  entries-low :
      (lo mid hi n : ℕ)
      → lo ≤ mid + 1
      → mid ≤ hi
      → n ≤ mid
      → map_get n (entries lo hi) ≡ map_get n (entries lo mid)
  entries-low lo mid hi n p q le =
      let xs = list_commitments lo mid in
      let ys = list_commitments (mid + 1) hi in
      let off =
        Avoids-outside n (mid + 1) hi ys (bridge.inside (mid + 1) hi) (inl (omega (arith, le))) in
      ap (λ fs. map_get n (fill_fabric [] fs)) (bridge.parts lo mid hi p q)
      ∙ ap (map_get n) (fill_fabric-append [] xs ys)
      ∙ fill_fabric-Avoids n (fill_fabric [] xs) ys off

  entries-high :
      (lo mid hi n : ℕ)
      → lo ≤ mid + 1
      → mid ≤ hi
      → mid + 1 ≤ n
      → map_get n (entries lo hi) ≡ map_get n (entries (mid + 1) hi)
  entries-high lo mid hi n p q le =
      let xs = list_commitments lo mid in
      let ys = list_commitments (mid + 1) hi in
      let off = Avoids-outside n lo mid xs (bridge.inside lo mid) (inr (omega (arith, le))) in
      ap (λ fs. map_get n (fill_fabric [] fs)) (bridge.parts lo mid hi p q)
      ∙ ap (map_get n) (fill_fabric-append [] xs ys)
      ∙ fill_fabric-agree n (fill_fabric [] xs) [] ys (fill_fabric-Avoids n [] xs off)

  rows-split :
      (lo mid hi : ℕ) → lo ≤ mid + 1 → mid ≤ hi → rows lo hi ≡ rows lo mid ++ rows (mid + 1) hi
  rows-split lo mid hi p q =
      ap (map action_of) (select_range-split lo mid hi t p q)
      ∙ map-append (select_range lo mid t) (select_range (mid + 1) hi t)

  compare-split :
      (lo mid hi : ℕ)
      → lo ≤ mid + 1
      → mid ≤ hi
      → compare_fabric (entries lo hi) (rows lo hi)
        ≡ both
            (compare_fabric (entries lo mid) (rows lo mid))
            (compare_fabric (entries (mid + 1) hi) (rows (mid + 1) hi))
  compare-split lo mid hi p q =
      let low =
        compare_fabric-agree (entries lo hi) (entries lo mid) lo mid (select_range lo mid t)
          (InRange-select_range lo mid t) (λ n from to. entries-low lo mid hi n p q to) in
      let high =
        compare_fabric-agree (entries lo hi) (entries (mid + 1) hi) (mid + 1) hi
          (select_range (mid + 1) hi t) (InRange-select_range (mid + 1) hi t)
          (λ n from to. entries-high lo mid hi n p q from) in
      ap (compare_fabric (entries lo hi)) (rows-split lo mid hi p q)
      ∙ compare_fabric-append (entries lo hi) (rows lo mid) (rows (mid + 1) hi)
      ∙ cc (low, high)

  pub sweep-split :
      (lo mid hi : ℕ)
      → lo ≤ mid + 1
      → mid ≤ hi
      → SameRows
          (sweep list_commitments t lo hi)
          (join (sweep list_commitments t lo mid) (sweep list_commitments t (mid + 1) hi))
  unfolding sweep
  sweep-split lo mid hi p q =
      let whole = compare-split lo mid hi p q in
      record {
        checked_same =
            ap length (rows-split lo mid hi p q) ∙ length-append (rows lo mid) (rows (mid + 1) hi);
        missing_same =
            ap (λ x. map (λ entry. entry.seq) x.0) whole
            ∙ seqs-append (compare_fabric (entries lo mid) (rows lo mid)).0
                (compare_fabric (entries (mid + 1) hi) (rows (mid + 1) hi)).0;
        divergent_same = ap (λ x. x.1) whole;
      }

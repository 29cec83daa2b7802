-- ===== src/Reconcile/Clean.antt =====
-- When the plan of computeReconciliationPlan is clean.
use vigil_apex_f.Common.{
  ℕ, ◌≡◌, ◌≢◌, ◌≤◌, ◌↔◌, refl, ap, ◌∙◌, inl, inr, Bool, true, ◌&&◌, ◌||◌, Option, none, some, List,
  [], ◌∷◌, Text, All, Any, ◌==◌, leb, arith, keep, length, map_get, to_lower, text_eq, text_eq_iff,
  Bool-cases,
}
use vigil_apex_f.Reconcile.{
  ActionsRow, FabricWitnessRow, AnchorCommitmentRow, ReconciliationState, Missing, Divergent,
  fill_fabric, compare_fabric, push_row, is_broadcast, is_covered, uncovered,
  compute_reconciliation_plan, plan_summary,
}
use vigil_apex_f.Reconcile.Lookup.{IsLast, Answer, map_get-fill_fabric, IsLast-fill_fabric}

-- The last Fabric witness of the row's seq has the row's hash, up to the case of its letters.
abbrev pub IsWitnessed : List FabricWitnessRow → ActionsRow → Type 0
IsWitnessed fs a =
    (f : FabricWitnessRow) × IsLast a.seq f fs × (to_lower f.body_hash ≡ to_lower a.body_hash)

-- The commitment was broadcast, and its range contains the seq.
abbrev pub Covers : ℕ → AnchorCommitmentRow → Type 0
Covers n c =
    (h : Text) × (c.polygon_tx_hash ≡ some h) × (h ≢ []) × (c.seq_from ≤ n) × (n ≤ c.seq_to)

abbrev pub IsSound : ReconciliationState → ActionsRow → Type 0
IsSound st a = IsWitnessed st.fabric_witnesses a × Any (Covers a.seq) st.anchor_commitments

abbrev IsQuiet : List Missing × List Divergent → Type 0
IsQuiet (ms, ds) = (ms ≡ []) × (ds ≡ [])

push_row-IsQuiet :
    (a : ActionsRow) (o : Option Text) (rest : List Missing × List Divergent)
    → IsQuiet (push_row a o rest) ↔ ((o ≡ some (to_lower a.body_hash)) × IsQuiet rest)
push_row-IsQuiet a none (ms, ds) = (λ h. cc h.0, λ h. cc h.0)
push_row-IsQuiet a (some fab) (ms, ds) = elim (Bool-cases (text_eq fab (to_lower a.body_hash))) [
  | inl same ↦ rw same (λ h. (cc ((text_eq_iff fab (to_lower a.body_hash)).0 same), h), λ h. h.1)
  | inr differs ↦ rw differs (
    λ h. cc h.1,
    λ h. cc (differs, (text_eq_iff fab (to_lower a.body_hash)).1 (ground (arith, h.0))),
  )
]

compare_fabric-IsQuiet :
    (m : List (ℕ × Text)) (rows : List ActionsRow)
    → IsQuiet (compare_fabric m rows)
      ↔ All (λ a. map_get a.seq m ≡ some (to_lower a.body_hash)) rows
unfolding compare_fabric
compare_fabric-IsQuiet m [] = (λ h. tt, λ h. (refl, refl))
compare_fabric-IsQuiet m (a ∷ rows) =
    let step = push_row-IsQuiet a (map_get a.seq m) (compare_fabric m rows) in
    let rest = compare_fabric-IsQuiet m rows in
    (λ h. let (e, q) = step.0 h in (e, rest.0 q), λ h. step.1 (h.0, rest.1 h.1))

hash_found_iff :
    (fs : List FabricWitnessRow) (a : ActionsRow)
    → Answer a.seq [] fs
    → (map_get a.seq (fill_fabric [] fs) ≡ some (to_lower a.body_hash)) ↔ IsWitnessed fs a
hash_found_iff fs a answer =
    (there answer, λ (f, l, same). IsLast-fill_fabric a.seq [] f fs l ∙ ap some same)
  where
    there :
        Answer a.seq [] fs
        → (map_get a.seq (fill_fabric [] fs) ≡ some (to_lower a.body_hash))
        → IsWitnessed fs a
    there (inl (off, e)) h = cc (e, h)
    there (inr (f, l, e)) h = (f, l, cc (e, h))

is_broadcast_iff :
    (c : AnchorCommitmentRow)
    → (is_broadcast c ≡ true) ↔ ((h : Text) × (c.polygon_tx_hash ≡ some h) × (h ≢ []))
is_broadcast_iff c = go c.polygon_tx_hash refl
  where
    go :
        (o : Option Text)
        → c.polygon_tx_hash ≡ o
        → (is_broadcast c ≡ true) ↔ ((h : Text) × (c.polygon_tx_hash ≡ some h) × (h ≢ []))
    go none e = rw e (λ h. cc h, λ (t, q, d). cc q)
    go (some t) e = rw e (
      λ h. (t, refl, λ empty. cc (h, (text_eq_iff t []).1 empty)),
      λ (u, q, d). ground (arith, q, d, text_eq_iff t []),
    )

is_covered_iff :
    (n : ℕ) (cs : List AnchorCommitmentRow)
    → (is_covered (keep is_broadcast cs) n ≡ true) ↔ Any (Covers n) cs
unfolding is_covered
is_covered_iff n [] = (λ h. cc h, elim [ ])
is_covered_iff n (c ∷ cs) =
    let rest = is_covered_iff n cs in
    let (to, from) = is_broadcast_iff c in
    elim (Bool-cases (is_broadcast c)) [
      | inl on ↦ rw on (head on rest (to on), back on rest)
      | inr off ↦ rw off (
        λ h. inr (rest.0 h),
        elim [ inl (t, q, d, lo, hi) ↦ cc (off, from (t, q, d)) | inr x ↦ rest.1 x ],
      )
    ]
  where
    inside : Bool
    inside = leb c.seq_from n && leb n c.seq_to

    others : Bool
    others = is_covered (keep is_broadcast cs) n

    head :
        is_broadcast c ≡ true
        → (others ≡ true) ↔ Any (Covers n) cs
        → ((h : Text) × (c.polygon_tx_hash ≡ some h) × (h ≢ []))
        → (inside || others) ≡ true
        → Any (Covers n) (c ∷ cs)
    head on rest (t, q, d) h = elim (Bool-cases inside) [
      | inl yea ↦ inl (t, q, d, ground (arith, yea), ground (arith, yea))
      | inr nay ↦ inr (rest.0 (ground (arith, h, nay)))
    ]

    back :
        is_broadcast c ≡ true
        → (others ≡ true) ↔ Any (Covers n) cs
        → Any (Covers n) (c ∷ cs)
        → (inside || others) ≡ true
    back on rest (inl (t, q, d, lo, hi)) = ground (arith, lo, hi)
    back on rest (inr x) = ground (arith, rest.1 x)

uncovered-eq-[] :
    (ranges : List AnchorCommitmentRow) (rows : List ActionsRow)
    → (uncovered ranges rows ≡ []) ↔ All (λ a. is_covered ranges a.seq ≡ true) rows
unfolding uncovered
uncovered-eq-[] ranges [] = (λ h. tt, λ h. refl)
uncovered-eq-[] ranges (a ∷ rows) =
    let rest = uncovered-eq-[] ranges rows in
    elim (Bool-cases (is_covered ranges a.seq)) [
      | inl inside ↦ rw inside (λ h. (refl, rest.0 h), λ h. rest.1 h.1)
      | inr outside ↦ rw outside (λ h. cc h, λ h. cc h.0)
    ]

count-zero {ℓ} : {A : Type ℓ} (xs : List A) → ((length xs == 0) ≡ true) ↔ (xs ≡ [])
count-zero [] = (λ h. refl, λ h. refl)
count-zero (x ∷ xs) = (λ h. ground (arith, h), λ h. cc h)

and_iff : (a b c : Bool) → ((a && b && c) ≡ true) ↔ ((a ≡ true) × (b ≡ true) × (c ≡ true))
and_iff a b c = ground arith

All-both :
    (P Q R : ActionsRow → Type 0) (f : (a : ActionsRow) → R a ↔ (P a × Q a))
    (rows : List ActionsRow)
    → All R rows ↔ (All P rows × All Q rows)
All-both P Q R f [] = (λ h. (tt, tt), λ h. tt)
All-both P Q R f (a ∷ rows) =
    let rest = All-both P Q R f rows in
    (
      λ h. let (x, y) = (f a).0 h.0 in let (xs, ys) = rest.0 h.1 in ((x, xs), (y, ys)),
      λ ((x, xs), (y, ys)). ((f a).1 (x, y), rest.1 (xs, ys)),
    )

-- The summary says clean exactly when every row of the pass is witnessed and covered: the last
-- Fabric witness of its seq has its hash, and a broadcast commitment has its seq in its range.
pub clean_iff :
    (st : ReconciliationState)
    → ((plan_summary (compute_reconciliation_plan st)).clean ≡ true) ↔ All (IsSound st) st.actions
unfolding compute_reconciliation_plan plan_summary
clean_iff st =
    let m = fill_fabric [] st.fabric_witnesses in
    let ranges = keep is_broadcast st.anchor_commitments in
    let (ms, ds) = compare_fabric m st.actions in
    let lost = uncovered ranges st.actions in
    let both =
      All-both (λ a. map_get a.seq m ≡ some (to_lower a.body_hash))
        (λ a. is_covered ranges a.seq ≡ true) (IsSound st)
        (λ a.
          let w =
            hash_found_iff st.fabric_witnesses a
              (map_get-fill_fabric a.seq [] st.fabric_witnesses) in
          let c = is_covered_iff a.seq st.anchor_commitments in
          (λ (x, y). (w.1 x, c.1 y), λ (x, y). (w.0 x, c.0 y)))
        st.actions in
    let quiet = compare_fabric-IsQuiet m st.actions in
    let hidden = uncovered-eq-[] ranges st.actions in
    (
      λ h.
          let (x, y, z) = (and_iff (length ms == 0) (length lost == 0) (length ds == 0)).0 h in
          both.1
            (quiet.0 ((count-zero ms).0 x, (count-zero ds).0 z), hidden.0 ((count-zero lost).0 y)),
      λ h.
          let (x, y) = both.0 h in
          let (a, b) = quiet.1 x in
          (and_iff (length ms == 0) (length lost == 0) (length ds == 0)).1
            ((count-zero ms).1 a, (count-zero lost).1 (hidden.1 y), (count-zero ds).1 b),
    )

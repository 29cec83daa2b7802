-- ===== src/Reconcile/Entries.antt =====
-- What each entry of the plan says of the rows and of the witnesses.
use vigil_apex_f.Common.{
  ◌≡◌, ◌≢◌, refl, inl, inr, Option, none, some, List, [], ◌∷◌, Text, All, Any, map_get, to_lower,
  text_eq, text_eq_iff, Bool-cases,
}
use vigil_apex_f.Reconcile.{
  ActionsRow, FabricWitnessRow, ReconciliationState, Missing, Divergent, fill_fabric,
  compare_fabric, push_row, compute_reconciliation_plan,
}
use vigil_apex_f.Reconcile.Lookup.{IsLast, Avoids, Answer, map_get-fill_fabric}

-- The entry reports the row, whose seq no witness has.
pub record IsAbsent (fs : List FabricWitnessRow) (e : Missing) (a : ActionsRow) : Type 0 where
  pub seq_same : e.seq ≡ a.seq
  pub hash_same : e.body_hash ≡ to_lower a.body_hash
  pub absent : Avoids a.seq fs

-- The entry reports the row and the last witness of its seq, and their hashes differ.
pub record IsApart (fs : List FabricWitnessRow) (d : Divergent) (a : ActionsRow) : Type 0 where
  pub seq_same : d.seq ≡ a.seq
  pub pg_same : d.pg_body_hash ≡ to_lower a.body_hash
  pub witness : FabricWitnessRow
  pub last : IsLast a.seq witness fs
  pub fabric_same : d.fabric_body_hash ≡ to_lower witness.body_hash
  pub differ : d.fabric_body_hash ≢ d.pg_body_hash

module _ (fs : List FabricWitnessRow) where
  abbrev pub AreExplained : List ActionsRow → List Missing × List Divergent → Type 0
  AreExplained rows (ms, ds) =
      All (λ e. Any (IsAbsent fs e) rows) ms × All (λ d. Any (IsApart fs d) rows) ds

  later-All :
      {E : Type 0} (P : E → ActionsRow → Type 0) (a : ActionsRow) (rows : List ActionsRow)
      (es : List E)
      → All (λ e. Any (P e) rows) es
      → All (λ e. Any (P e) (a ∷ rows)) es
  later-All P a rows [] h = tt
  later-All P a rows (e ∷ es) (h, hs) = (inr h, later-All P a rows es hs)

  push_row-AreExplained :
      (a : ActionsRow) (rows : List ActionsRow) (o : Option Text)
      (rest : List Missing × List Divergent)
      → map_get a.seq (fill_fabric [] fs) ≡ o
      → Answer a.seq [] fs
      → AreExplained rows rest
      → AreExplained (a ∷ rows) (push_row a o rest)
  push_row-AreExplained a rows none (ms, ds) q (inl (off, e)) (hm, hd) = (
    (
      inl (record { seq_same = refl; hash_same = refl; absent = off }),
      later-All (IsAbsent fs) a rows ms hm,
    ),
    later-All (IsApart fs) a rows ds hd,
  )
  push_row-AreExplained a rows (some t) (ms, ds) q (inl (off, e)) h = cc (e, q)
  push_row-AreExplained a rows none (ms, ds) q (inr (f, l, e)) h = cc (e, q)
  push_row-AreExplained a rows (some t) (ms, ds) q (inr (f, l, e)) (hm, hd) =
      elim (Bool-cases (text_eq t (to_lower a.body_hash))) [
        | inl same ↦
            rw same (later-All (IsAbsent fs) a rows ms hm, later-All (IsApart fs) a rows ds hd)
        | inr apart ↦ rw apart (
          later-All (IsAbsent fs) a rows ms hm,
          (
            inl (record {
              seq_same = refl;
              pg_same = refl;
              witness = f;
              last = l;
              fabric_same = cc (e, q);
              differ = λ same. cc (apart, (text_eq_iff t (to_lower a.body_hash)).1 same);
            }),
            later-All (IsApart fs) a rows ds hd,
          ),
        )
      ]

  compare_fabric-AreExplained :
      (rows : List ActionsRow) → AreExplained rows (compare_fabric (fill_fabric [] fs) rows)
  unfolding compare_fabric
  compare_fabric-AreExplained [] = (tt, tt)
  compare_fabric-AreExplained (a ∷ rows) =
      push_row-AreExplained a rows (map_get a.seq (fill_fabric [] fs))
        (compare_fabric (fill_fabric [] fs) rows) refl (map_get-fill_fabric a.seq [] fs)
        (compare_fabric-AreExplained rows)

-- Every entry of the plan is about a row of the pass: one reported missing has a seq that no Fabric
-- witness has, and one reported divergent differs from the last witness of its seq.
pub compute_reconciliation_plan-AreExplained :
    (st : ReconciliationState)
    → let plan = compute_reconciliation_plan st in
      AreExplained st.fabric_witnesses st.actions (plan.missing_from_fabric, plan.divergent)
unfolding compute_reconciliation_plan
compute_reconciliation_plan-AreExplained st =
    compare_fabric-AreExplained st.fabric_witnesses st.actions

-- ===== src/Reconcile.antt =====
-- apps/worker-reconcil-audit/src/reconcile.ts: the plan of one reconciliation pass between the audit
-- table, the mirror of the Fabric ledger and the Polygon commitments. A seq is the number that its
-- decimal text from the database stands for.
pub mod Lookup
pub mod Clean
pub mod Entries
mod Tests
use vigil_apex_f.Common.{
  ℕ, Bool, not, ◌&&◌, Option, none, some, List, [], ◌∷◌, Text, ◌==◌, leb, if◌then◌else◌, text_eq,
  keep, any, length, map_set, map_get, to_lower,
}

pub record ActionsRow : Type 0 where
  pub seq : ℕ
  pub body_hash : Text

pub record FabricWitnessRow : Type 0 where
  pub seq : ℕ
  pub body_hash : Text

pub record AnchorCommitmentRow : Type 0 where
  pub seq_from : ℕ
  pub seq_to : ℕ
  pub root_hash : Text
  pub polygon_tx_hash : Option Text

pub record ReconciliationState : Type 0 where
  pub actions : List ActionsRow
  pub fabric_witnesses : List FabricWitnessRow
  pub anchor_commitments : List AnchorCommitmentRow

pub record Missing : Type 0 where
  pub seq : ℕ
  pub body_hash : Text

pub record Divergent : Type 0 where
  pub seq : ℕ
  pub pg_body_hash : Text
  pub fabric_body_hash : Text

pub record ReconciliationPlan : Type 0 where
  pub missing_from_fabric : List Missing
  pub missing_from_polygon : List Missing
  pub divergent : List Divergent
  pub total_checked : ℕ

-- The loop that fills `fabricBySeq`.
unfoldable pub fill_fabric : List (ℕ × Text) → List FabricWitnessRow → List (ℕ × Text)
fill_fabric m [] = m
fill_fabric m (f ∷ fs) = fill_fabric (map_set f.seq (to_lower f.body_hash) m) fs

abbrev pub missing_of : ActionsRow → Missing
missing_of a = record { seq = a.seq; body_hash = to_lower a.body_hash }

-- What the loop over the actions pushes for one row, in front of what the later rows push.
abbrev pub push_row :
    ActionsRow → Option Text → List Missing × List Divergent → List Missing × List Divergent
push_row a none (ms, ds) = (missing_of a ∷ ms, ds)
push_row a (some fab) (ms, ds) =
    let pg = to_lower a.body_hash in
    if text_eq fab pg
    then (ms, ds)
    else (ms, record { seq = a.seq; pg_body_hash = pg; fabric_body_hash = fab } ∷ ds)

unfoldable pub compare_fabric : List (ℕ × Text) → List ActionsRow → List Missing × List Divergent
compare_fabric m [] = ([], [])
compare_fabric m (a ∷ rows) = push_row a (map_get a.seq m) (compare_fabric m rows)

-- c.polygon_tx_hash !== null && c.polygon_tx_hash !== ''
abbrev pub is_broadcast : AnchorCommitmentRow → Bool
is_broadcast c = elim c.polygon_tx_hash [ none ↦ Bool.false | some h ↦ not (text_eq h []) ]

unfoldable pub is_covered : List AnchorCommitmentRow → ℕ → Bool
is_covered ranges n = any (λ r. leb r.seq_from n && leb n r.seq_to) ranges

unfoldable pub uncovered : List AnchorCommitmentRow → List ActionsRow → List Missing
unfolding is_covered
uncovered ranges [] = []
uncovered ranges (a ∷ rows) =
    let rest = uncovered ranges rows in
    if is_covered ranges a.seq then rest else missing_of a ∷ rest

unfoldable pub compute_reconciliation_plan : ReconciliationState → ReconciliationPlan
compute_reconciliation_plan state =
    let m = fill_fabric [] state.fabric_witnesses in
    let (missing, divergent) = compare_fabric m state.actions in
    record {
      missing_from_fabric = missing;
      missing_from_polygon = uncovered (keep is_broadcast state.anchor_commitments) state.actions;
      divergent = divergent;
      total_checked = length state.actions;
    }

pub record PlanSummary : Type 0 where
  pub total : ℕ
  pub missing_fabric : ℕ
  pub missing_polygon : ℕ
  pub divergent : ℕ
  pub clean : Bool

unfoldable pub plan_summary : ReconciliationPlan → PlanSummary
plan_summary plan = record {
  total = plan.total_checked;
  missing_fabric = length plan.missing_from_fabric;
  missing_polygon = length plan.missing_from_polygon;
  divergent = length plan.divergent;
  clean =
      (length plan.missing_from_fabric == 0)
      && (length plan.missing_from_polygon == 0)
      && (length plan.divergent == 0);
}

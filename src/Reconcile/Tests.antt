-- ===== src/Reconcile/Tests.antt =====
-- The theorems about the reconciliation plan at a concrete state.
use vigil_apex_f.Common.{◌≡◌, ◌↔◌, refl, none, some, [], ◌∷◌, codes, All, text_eq, true}
use vigil_apex_f.Reconcile.{
  ReconciliationState, compute_reconciliation_plan, plan_summary, fill_fabric, compare_fabric,
  uncovered, is_covered,
}
use vigil_apex_f.Reconcile.Clean.{IsSound, clean_iff}

-- Row 1 is witnessed and covered; row 2 diverges, and its commitment was never sent; row 3 is missing.
abbrev state : ReconciliationState
state = record {
  actions =
      record { seq = 1; body_hash = codes "AB" }
      ∷ record { seq = 2; body_hash = codes "cd" }
      ∷ record { seq = 3; body_hash = codes "ef" }
      ∷ [];
  fabric_witnesses =
      record { seq = 2; body_hash = codes "00" } ∷ record { seq = 1; body_hash = codes "ab" } ∷ [];
  anchor_commitments =
      record {
        seq_from = 1;
        seq_to = 1;
        root_hash = codes "ab";
        polygon_tx_hash = some (codes "0x1");
      }
      ∷ record { seq_from = 2; seq_to = 3; root_hash = codes "aa"; polygon_tx_hash = none }
      ∷ [];
}

state-plan : compute_reconciliation_plan state ≡ record {
  missing_from_fabric = record { seq = 3; body_hash = codes "ef" } ∷ [];
  missing_from_polygon =
      record { seq = 2; body_hash = codes "cd" } ∷ record { seq = 3; body_hash = codes "ef" } ∷ [];
  divergent = record { seq = 2; pg_body_hash = codes "cd"; fabric_body_hash = codes "00" } ∷ [];
  total_checked = 3;
}
unfolding compute_reconciliation_plan compare_fabric fill_fabric uncovered is_covered text_eq
state-plan = refl

clean_iff_example :
    ((plan_summary (compute_reconciliation_plan state)).clean ≡ true)
    ↔ All (IsSound state) state.actions
clean_iff_example = clean_iff state

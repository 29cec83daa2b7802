-- ===== src/Governance/Tests.antt =====
-- The council's decision at a concrete tally.
use vigil_apex_f.Common.{◌≡◌, ◌≤◌, ◌<◌, ◌↔◌, true, arith}
use vigil_apex_f.Governance.{
  decision_for, public_release_decision, decided, escalate, dismiss, expired,
}
use vigil_apex_f.Governance.Decided.{tally_of, decision_for_council}

decision_for_council_example :
    ((decision_for (tally_of 3 1 0 1) true ≡ decided escalate) ↔ (3 ≤ 3))
    × ((decision_for (tally_of 3 1 0 1) true ≡ decided dismiss) ↔ (3 ≤ 1))
    × ((decision_for (tally_of 3 1 0 1) true ≡ decided expired)
        ↔ ((true ≡ true) × (3 < 3) × (1 < 3)))
    × ((public_release_decision (tally_of 3 1 0 1) ≡ decided escalate)
        ↔ ((decision_for (tally_of 3 1 0 1) true ≡ decided escalate) × (3 < 3)))
decision_for_council_example = decision_for_council 3 1 0 1 true (omega arith)

-- ===== src/Governance/Decided.antt =====
-- What the council's decisions depend on.
use vigil_apex_f.Common.{ℕ, ◌+◌, ◌≤◌, ◌<◌, ◌≡◌, ◌↔◌, Bool, true, arith}
use vigil_apex_f.Governance.{
  votes, VoteTally, escalate, dismiss, expired, decided, assert_well_formed_tally, decision_for,
  public_release_decision,
}

abbrev pub tally_of : ℕ → ℕ → ℕ → ℕ → VoteTally
tally_of y n a r = record { yes = votes y; no = votes n; abstain = votes a; recuse = votes r }

-- In a council of five, one vote each: the proposal is escalated exactly with three yes votes,
-- dismissed exactly with three no votes, whether its time has run out or not, and a public release
-- needs a proposal that is escalated and a further yes vote.
pub decision_for_council :
    (y n a r : ℕ) (is_expired : Bool)
    → y + n + a + r ≤ 5
    → let tally = tally_of y n a r in
      ((decision_for tally is_expired ≡ decided escalate) ↔ (3 ≤ y))
      × ((decision_for tally is_expired ≡ decided dismiss) ↔ (3 ≤ n))
      × ((decision_for tally is_expired ≡ decided expired)
          ↔ ((is_expired ≡ true) × (y < 3) × (n < 3)))
      × ((public_release_decision tally ≡ decided escalate)
          ↔ ((decision_for tally is_expired ≡ decided escalate) × (3 < y)))
unfolding decision_for public_release_decision assert_well_formed_tally
decision_for_council y n a r is_expired five = ground arith

-- ===== src/Governance.antt =====
-- packages/governance/src/quorum.ts: the off-chain mirror of the council's quorum.
pub mod Decided
mod Tests
use vigil_apex_f.Common.{
  ℕ, ◌+◌, Bool, true, false, Option, none, some, List, [], ◌∷◌, Text, codes, leb, ltb,
  if◌then◌else◌, length,
}

-- A JavaScript number, as `Number.isInteger(value) && value >= 0` tells them apart.
pub data VoteCount : Type 0 where
  votes : ℕ → VoteCount
  malformed : VoteCount

pub record VoteTally : Type 0 where
  pub yes : VoteCount
  pub no : VoteCount
  pub abstain : VoteCount
  pub recuse : VoteCount

pub data Decision : Type 0 where
  escalate dismiss expired still_running : Decision

pub data GovernanceError : Type 0 where
  -- the name of the field
  tally_malformed : Text → GovernanceError
  double_vote : ℕ → GovernanceError

pub data Outcome : Type 0 where
  decided : Decision → Outcome
  rejected : GovernanceError → Outcome

abbrev pub quorum_required_escalate : ℕ
quorum_required_escalate = 3

abbrev pub quorum_required_public_release : ℕ
quorum_required_public_release = 4

-- The tally's numbers, when assertWellFormedTally lets it pass.
pub record Counts : Type 0 where
  pub yes : ℕ
  pub no : ℕ
  pub abstain : ℕ
  pub recuse : ℕ

abbrev pub with_count : Text → VoteCount → (ℕ → Outcome) → Outcome
with_count field malformed f = rejected (tally_malformed field)
with_count field (votes n) f = f n

-- assertWellFormedTally, which checks the fields in this order, and what comes after it
unfoldable pub assert_well_formed_tally : VoteTally → (Counts → Outcome) → Outcome
assert_well_formed_tally tally next = with_count (codes "yes") tally.yes (λ yes.
    with_count (codes "no") tally.no (λ no. with_count (codes "abstain") tally.abstain (λ abstain.
      with_count (codes "recuse") tally.recuse
        (λ recuse. next (record { yes = yes; no = no; abstain = abstain; recuse = recuse })))))

unfoldable pub decision_for : VoteTally → Bool → Outcome
decision_for tally is_expired = assert_well_formed_tally tally (λ c. decided (
    if leb quorum_required_escalate c.yes
    then escalate
    else if leb quorum_required_escalate c.no
    then dismiss
    else if is_expired
    then expired
    else still_running))

unfoldable pub public_release_decision : VoteTally → Outcome
public_release_decision tally = assert_well_formed_tally tally (λ c. decided (
    if leb quorum_required_public_release c.yes
    then escalate
    else if leb quorum_required_escalate c.no
    then dismiss
    else still_running))

-- assertCannotDoubleVote; `none` is no error
unfoldable pub assert_cannot_double_vote : List Text → Option GovernanceError
assert_cannot_double_vote existing_choices =
    if ltb 1 (length existing_choices) then some (double_vote (length existing_choices)) else none

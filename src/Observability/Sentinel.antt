-- ===== src/Observability/Sentinel.antt =====
-- packages/observability/src/sentinel-quorum.ts: the 2-of-3 decision on the reports of the sentinels,
-- and the run that probes them and emits an audit row.
pub mod Agreed
use vigil_apex_f.Common.{
  ℕ, ◌+◌, ◌≤◌, ◌≡◌, ◌↔◌, refl, Bool, true, false, Option, none, some, List, [], ◌∷◌, ◌++◌, map,
  Text, codes, leb, leb→le, le→leb, lt→leb_false, if◌then◌else◌, keep, length, arith, Bool-cases,
  inl, inr,
}
use vigil_apex_f.AuditChain.Canonical.{decimal}

pub data Site : Type 0 where
  helsinki tokyo nyc : Site

pub data SentinelOutcome : Type 0 where
  up down unknown : SentinelOutcome

pub record SentinelReport : Type 0 where
  pub site : Site
  pub target : Text
  pub outcome : SentinelOutcome
  pub observed_at : Text

pub data Decision : Type 0 where
  is_up is_down inconclusive : Decision

pub record QuorumDecision : Type 0 where
  pub decision : Decision
  pub up_count : ℕ
  pub down_count : ℕ
  pub unknown_count : ℕ
  pub attesting_sites : List Site

abbrev pub same_outcome : SentinelOutcome → SentinelOutcome → Bool
same_outcome up up = true
same_outcome down down = true
same_outcome unknown unknown = true
same_outcome _ _ = false

abbrev pub is_outcome : SentinelOutcome → SentinelReport → Bool
is_outcome o r = same_outcome o r.outcome

abbrev pub count : SentinelOutcome → List SentinelReport → ℕ
count o reports = length (keep (is_outcome o) reports)

abbrev pub sites : SentinelOutcome → List SentinelReport → List Site
sites o reports = map (λ r. r.site) (keep (is_outcome o) reports)

abbrev pub decided : List SentinelReport → Decision → List Site → QuorumDecision
decided reports d attesting = record {
  decision = d;
  up_count = count up reports;
  down_count = count down reports;
  unknown_count = count unknown reports;
  attesting_sites = attesting;
}

unfoldable pub quorum_decide : List SentinelReport → QuorumDecision
quorum_decide reports =
    if leb 2 (count down reports)
    then decided reports is_down (sites down reports)
    else if leb 2 (count up reports)
    then decided reports is_up (sites up reports)
    else decided reports inconclusive []

-- EmitOutageResult, or `none` for an injected function that returns nothing.
pub record EmitOutageResult : Type 0 where
  pub ok : Bool
  pub status : Option ℕ
  pub error : Option Text

pub record RunSentinelQuorumResult : Type 0 where
  pub target : Text
  pub decision : QuorumDecision
  pub emitted : Bool
  pub emit_ok : Option Bool
  pub emit_error : Option Text

-- r.error ?? `audit-bridge status=${r.status ?? 'unknown'}`
abbrev pub error_text : EmitOutageResult → Text
error_text r = elim r.error [
  | some t ↦ t
  | none ↦
      codes "audit-bridge status=" ++ elim r.status [ none ↦ codes "unknown" | some n ↦ decimal n ]
]

abbrev pub with_emit : Text → QuorumDecision → Option EmitOutageResult → RunSentinelQuorumResult
with_emit target d none = record {
  target = target;
  decision = d;
  emitted = true;
  emit_ok = some true;
  emit_error = none;
}
with_emit target d (some r) = record {
  target = target;
  decision = d;
  emitted = true;
  emit_ok = some r.ok;
  emit_error = if r.ok then none else some (error_text r);
}

abbrev pub after_decision :
    Text
    → QuorumDecision
    → (QuorumDecision → Option EmitOutageResult)
    → Decision
    → RunSentinelQuorumResult
after_decision target d emit is_down = with_emit target d (emit d)
after_decision target d emit is_up = record {
  target = target;
  decision = d;
  emitted = false;
  emit_ok = none;
  emit_error = none;
}
after_decision target d emit inconclusive = record {
  target = target;
  decision = d;
  emitted = false;
  emit_ok = none;
  emit_error = none;
}

-- The probes of the endpoints and the emitter are injected.
unfoldable pub run_sentinel_quorum :
    (Site → Text → SentinelReport)
    → (QuorumDecision → Option EmitOutageResult)
    → List Site
    → Text
    → RunSentinelQuorumResult
run_sentinel_quorum probe emit endpoints target =
    let d = quorum_decide (map (λ site. probe site target) endpoints) in
    after_decision target d emit d.decision

-- ===== src/Ceremony.antt =====
-- apps/worker-governance/src/vote-ceremony.ts: what the worker does on the events of the governance
-- contract. What its queries find is given; what it writes is a list of effects, cut off at the first
-- one that throws.
pub mod Pattern
pub mod Escalated
mod Tests
use vigil_apex_f.Common.{
  ℕ, zero, suc, ◌+◌, ◌*◌, Bool, true, false, ◌&&◌, Option, none, some, List, [], ◌∷◌, ◌++◌, Text,
  codes, leb, ltb, if◌then◌else◌, text_eq, to_lower, get_elem?,
}
use vigil_apex_f.AuditChain.Json.{Json, null, num, str, arr, obj, nil, cons, end, field}
use vigil_apex_f.AuditChain.Canonical.{decimal}
use vigil_apex_f.AuditChain.Append.{AppendInput}
use vigil_apex_f.Certainty.Double.{Doubles}
use vigil_apex_f.Chaincode.{zeros}
use vigil_apex_f.Routing.{
  PatternCategoryLetter, letter_a, Severity, RecipientBody, conac, cour_des_comptes, minfi, anif,
  cdc, other, recommend_recipient_body,
}
use vigil_apex_f.Ceremony.Pattern.{parse_pattern_id, letter_text}

pub record Proposal : Type 0 where
  pub on_chain_index : Text
  pub finding_id : Text
  pub opened_at : ℕ
  pub closes_at : ℕ

pub record Vote : Type 0 where
  pub proposal_id : Text
  pub voter_address : Text
  pub voter_pillar : Text
  pub choice : Text
  pub cast_at : ℕ
  pub recuse_reason : Option Text

pub record Render : Type 0 where
  pub finding_id : Text
  pub language : Text
  pub recipient_body_name : RecipientBody
  pub proposal_index : Text
  pub dedup_key : Text

pub data Effect : Type 0 where
  insert_proposal : Proposal → Effect
  insert_vote : Vote → Effect
  append : AppendInput → Effect
  -- the finding, the body, and the category in the reason
  set_recipient_body : Text → RecipientBody → Text → Effect
  publish : Render → Effect

abbrev pub entry : Text → Text → Text → Text → Json → Effect
entry action actor subject_kind subject_id payload = append (record {
  action = action;
  actor = actor;
  subject_kind = subject_kind;
  subject_id = subject_id;
  occurred_at = none;
  payload = some payload;
})

abbrev pub proposal_ttl_ms : ℕ
proposal_ttl_ms = 14 * 86400000

unfoldable pub handle_proposal_opened : ℕ → ℕ → Text → Text → Text → List Effect
handle_proposal_opened now idx finding_hash proposer uri =
    insert_proposal (record {
      on_chain_index = decimal idx;
      finding_id = finding_hash;
      opened_at = now;
      closes_at = now + proposal_ttl_ms;
    })
    ∷ entry (codes "governance.proposal_opened") (to_lower proposer) (codes "proposal")
        (decimal idx)
        (obj (field (codes "findingHash") (str finding_hash) (field (codes "uri") (str uri) end)))
    ∷ []

abbrev pub choice_map : List Text
choice_map = codes "YES" ∷ codes "NO" ∷ codes "ABSTAIN" ∷ codes "RECUSE" ∷ []

abbrev pub pillar_map : List Text
pillar_map =
    codes "governance"
    ∷ codes "judicial"
    ∷ codes "civil_society"
    ∷ codes "audit"
    ∷ codes "technical"
    ∷ []

-- A number that indexes a list: `none` is a number that is negative or no integer.
abbrev pub at_index : Option ℕ → List Text → Option Text
at_index none names = none
at_index (some n) names = get_elem? names n

abbrev pub zero_bytes32 : Text
zero_bytes32 = codes "0x" ++ zeros 64

unfoldable pub vote_effects : ℕ → ℕ → Text → Text → Text → Text → List Effect
vote_effects now idx voter choice pillar recuse_reason =
    insert_vote (record {
      proposal_id = decimal idx;
      voter_address = to_lower voter;
      voter_pillar = pillar;
      choice = choice;
      cast_at = now;
      recuse_reason = if text_eq recuse_reason zero_bytes32 then none else some recuse_reason;
    })
    ∷ entry (codes "governance.vote_cast") (to_lower voter) (codes "proposal") (decimal idx) (
        obj (
          field (codes "choice") (str choice) (
            field (codes "pillar") (str pillar)
              (field (codes "recuseReason") (str recuse_reason) end))))
    ∷ []

abbrev pub cast_effects : ℕ → ℕ → Text → Text → Option Text → Option Text → List Effect
cast_effects now idx voter reason none pillar = []
cast_effects now idx voter reason (some choice) none = []
cast_effects now idx voter reason (some choice) (some pillar) =
    vote_effects now idx voter choice pillar reason

unfoldable pub handle_vote_cast : ℕ → ℕ → Text → Option ℕ → Option ℕ → Text → List Effect
handle_vote_cast now idx voter choice pillar recuse_reason =
    cast_effects now idx voter recuse_reason (at_index choice choice_map)
      (at_index pillar pillar_map)

abbrev pub body_text : RecipientBody → Text
body_text conac = codes "CONAC"
body_text cour_des_comptes = codes "COUR_DES_COMPTES"
body_text minfi = codes "MINFI"
body_text anif = codes "ANIF"
body_text cdc = codes "CDC"
body_text other = codes "OTHER"

pub record Finding (Double : Type 0) : Type 0 where
  pub id : Text
  pub posterior : Option Double
  pub signal_count : Option ℕ
  pub recommended_recipient_body : Option RecipientBody
  pub primary_pattern_id : Option Text
  pub severity : Severity

-- What a query answers: it throws, or it finds a row or none.
pub data Answer {ℓ} (A : Type ℓ) : Type ℓ where
  query_error : Answer A
  answered : Option A → Answer A

-- The queries of an escalation: the proposal by its index gives the id of its finding.
pub record Queries (Double : Type 0) : Type 0 where
  pub proposal : Answer Text
  pub finding : Answer (Finding Double)
  pub routing_decision : Answer RecipientBody

abbrev pub category_of : Option Text → PatternCategoryLetter
category_of none = letter_a
category_of (some pattern) = elim (parse_pattern_id pattern) [
  | none ↦ letter_a
  | some parsed ↦ parsed.category
]

abbrev pub render : Text → Text → RecipientBody → Text → Render
render finding_id language body idx = record {
  finding_id = finding_id;
  language = language;
  recipient_body_name = body;
  proposal_index = idx;
  dedup_key = codes "render:" ++ (finding_id ++ (b':' ∷ language));
}

abbrev pub enqueued_entry : Text → RecipientBody → Text → Effect
enqueued_entry finding_id body idx =
    entry (codes "dossier.render_enqueued") (codes "system:worker-governance") (codes "finding")
      finding_id
      (obj (
        field (codes "proposal_index") (str idx) (
          field (codes "recipient_body_name") (str (body_text body)) (
            field (codes "languages") (arr (cons (str (codes "fr")) (cons (str (codes "en")) nil)))
              end))))

-- What follows the choice of the body.
unfoldable pub publish_renders : Text → RecipientBody → Text → List Effect
publish_renders finding_id body idx =
    publish (render finding_id (codes "fr") body idx)
    ∷ publish (render finding_id (codes "en") body idx)
    ∷ enqueued_entry finding_id body idx
    ∷ []

-- The effects that take place when the effect after the first `k` ones throws.
unfoldable pub performed : Option ℕ → List Effect → List Effect
performed none effects = effects
performed (some k) [] = []
performed (some zero) (e ∷ effects) = []
performed (some (suc k)) (e ∷ effects) = e ∷ performed (some k) effects

module _ {Double : Type 0} (d : Doubles Double) (print : Double → Text) where
  -- meetsCONACThreshold
  abbrev pub posterior_meets : Option Double → Bool
  posterior_meets none = false
  posterior_meets (some p) = d.is_finite p && d.le d.action_threshold p

  abbrev pub count_meets : Option ℕ → Bool
  count_meets none = false
  count_meets (some c) = leb 5 c

  unfoldable pub meets_conac_threshold : Finding Double → Bool
  meets_conac_threshold f = posterior_meets f.posterior && count_meets f.signal_count

  abbrev pub posterior_json : Option Double → Json
  posterior_json none = null
  posterior_json (some p) = num (print p)

  abbrev pub count_json : Option ℕ → Json
  count_json none = null
  count_json (some c) = num (decimal c)

  unfoldable pub blocked_entry : Finding Double → Text → Effect
  blocked_entry f idx =
      entry (codes "dossier.render_blocked_below_threshold") (codes "system:worker-governance")
        (codes "finding") f.id
        (obj (
          field (codes "proposal_index") (str idx) (
            field (codes "posterior") (posterior_json f.posterior) (
              field (codes "signal_count") (count_json f.signal_count) (
                field (codes "threshold_posterior") (num (print d.action_threshold)) (
                  field (codes "threshold_signals") (num (decimal 5)) (
                    field (codes "reason")
                      (str (codes "FIND-002 gate — finding does not meet CONAC threshold"))
                      end)))))))

  abbrev pub recommended_effects : Finding Double → Text → Option RecipientBody → List Effect
  recommended_effects f idx (some body) = publish_renders f.id body idx
  recommended_effects f idx none =
      let category = category_of f.primary_pattern_id in
      let body = recommend_recipient_body category f.severity false in
      set_recipient_body f.id body (letter_text category) ∷ publish_renders f.id body idx

  -- The body, and what is written for it.
  abbrev pub routed_effects : Finding Double → Text → Option RecipientBody → List Effect
  routed_effects f idx (some decision) = publish_renders f.id decision idx
  routed_effects f idx none = recommended_effects f idx f.recommended_recipient_body

  abbrev pub decided_effects : Finding Double → Text → Answer RecipientBody → List Effect
  decided_effects f idx query_error = []
  decided_effects f idx (answered decision) = routed_effects f idx decision

  unfoldable pub finding_effects : Finding Double → Text → Answer RecipientBody → List Effect
  finding_effects f idx decision =
      if meets_conac_threshold f then decided_effects f idx decision else blocked_entry f idx ∷ []

  abbrev pub found_effects : Text → Answer RecipientBody → Answer (Finding Double) → List Effect
  found_effects idx decision query_error = []
  found_effects idx decision (answered none) = []
  found_effects idx decision (answered (some f)) = finding_effects f idx decision

  abbrev pub proposal_effects : Text → Queries Double → List Effect
  proposal_effects idx q = elim q.proposal [
    | query_error ↦ []
    | answered none ↦ []
    | answered (some finding_id) ↦ found_effects idx q.routing_decision q.finding
  ]

  abbrev pub escalated_entry : Text → Effect
  escalated_entry idx =
      entry (codes "governance.proposal_escalated") (codes "contract") (codes "proposal") idx
        (obj end)

  -- The effects of an escalation, when none of them throws.
  unfoldable pub escalation_effects : ℕ → Queries Double → List Effect
  escalation_effects idx q =
      let text = decimal idx in escalated_entry text ∷ proposal_effects text q

  unfoldable pub handle_proposal_escalated : Option ℕ → ℕ → Queries Double → List Effect
  handle_proposal_escalated broken_at idx q = performed broken_at (escalation_effects idx q)

-- The two terminal states.
unfoldable pub handle_proposal_dismissed : ℕ → List Effect
handle_proposal_dismissed idx =
    entry (codes "governance.proposal_dismissed") (codes "contract") (codes "proposal")
      (decimal idx) (obj end)
    ∷ []

unfoldable pub handle_proposal_expired : ℕ → List Effect
handle_proposal_expired idx =
    entry (codes "governance.proposal_expired") (codes "contract") (codes "proposal") (decimal idx)
      (obj end)
    ∷ []

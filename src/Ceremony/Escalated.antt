-- ===== src/Ceremony/Escalated.antt =====
-- What apps/worker-governance/src/vote-ceremony.ts publishes on an escalation, and what it projects of
-- a vote.
use vigil_apex_f.Common.{
  ℕ, zero, suc, ◌≡◌, ◌<◌, ◌↔◌, refl, true, false, Option, none, some, List, [], ◌∷◌, length, Text,
  arith, get_elem?,
}
use vigil_apex_f.Certainty.Double.{Doubles}
use vigil_apex_f.Routing.{RecipientBody, recommend_recipient_body}
use vigil_apex_f.Ceremony.{
  Effect, append, insert_proposal, insert_vote, set_recipient_body, publish, Render, Finding,
  answered, Queries, category_of, meets_conac_threshold, cast_effects, at_index, choice_map,
  pillar_map, vote_effects, handle_vote_cast,
}

-- The renders of a list of effects, in order.
abbrev pub renders : List Effect → List Render
renders [] = []
renders (publish r ∷ effects) = r ∷ renders effects
renders (insert_proposal p ∷ effects) = renders effects
renders (insert_vote v ∷ effects) = renders effects
renders (append i ∷ effects) = renders effects
renders (set_recipient_body f b r ∷ effects) = renders effects

module _ {Double : Type 0} (d : Doubles Double) (print : Double → Text) where
  -- A render is one of the finding that the query found, and that finding meets the threshold.
  abbrev pub IsAllowed : Queries Double → Effect → Type 0
  IsAllowed q (publish r) =
      (f : Finding Double) × (q.finding ≡ answered (some f))
      × (meets_conac_threshold d print f ≡ true)
      × (r.finding_id ≡ f.id)
  IsAllowed q _ = Unit

  -- The council's decision, or the recommended body, or the one derived from the pattern.
  abbrev pub body_of : Finding Double → Option RecipientBody → RecipientBody
  body_of f (some decision) = decision
  body_of f none = elim f.recommended_recipient_body [
    | some body ↦ body
    | none ↦ recommend_recipient_body (category_of f.primary_pattern_id) f.severity false
  ]

-- The number names an entry of a list of that length.
abbrev pub Below : ℕ → Option ℕ → Type 0
Below n none = ⊥
Below n (some k) = k < n

-- What an index into a list of names gives.
record Indexed (names : List Text) (o : Option ℕ) (found : Option Text) : Type 0 where
  hit : (name : Text) → found ≡ some name → Below (length names) o
  miss : found ≡ none → Below (length names) o → ⊥

get_elem?-Indexed : (names : List Text) (k : ℕ) → Indexed names (some k) (get_elem? names k)
get_elem?-Indexed [] k = record { hit = λ n e. cc e; miss = λ e h. absurd (omega (arith, h)) }
get_elem?-Indexed (name ∷ names) zero = record { hit = λ n e. omega arith; miss = λ e h. cc e }
get_elem?-Indexed (name ∷ names) (suc k) =
    let rest = get_elem?-Indexed names k in
    record {
      hit = λ n e. let h = rest.hit n e in omega (arith, h);
      miss = λ e h. rest.miss e (omega (arith, h));
    }

at_index-Indexed : (names : List Text) (o : Option ℕ) → Indexed names o (at_index o names)
at_index-Indexed names none = record { hit = λ n e. cc e; miss = λ e h. h }
at_index-Indexed names (some k) = get_elem?-Indexed names k

cast_effects-Indexed :
    (now idx : ℕ) (voter reason : Text) (c p : Option ℕ) (choice pillar : Option Text)
    → Indexed choice_map c choice
    → Indexed pillar_map p pillar
    → (0 < length (cast_effects now idx voter reason choice pillar)) ↔ (Below 4 c × Below 5 p)
unfolding vote_effects
cast_effects-Indexed now idx voter reason c p none pillar hc hp =
    (λ e. absurd (omega (arith, e)), λ e. absurd (hc.miss refl e.0))
cast_effects-Indexed now idx voter reason c p (some choice) none hc hp =
    (λ e. absurd (omega (arith, e)), λ e. absurd (hp.miss refl e.1))
cast_effects-Indexed now idx voter reason c p (some choice) (some pillar) hc hp =
    (λ e. (hc.hit choice refl, hp.hit pillar refl), λ e. omega arith)

-- A vote is projected exactly when its choice is one of the four and its pillar one of the five; a
-- number out of range, negative or no integer leaves neither a row nor an entry of the log.
pub handle_vote_cast_iff :
    (now idx : ℕ) (voter : Text) (choice pillar : Option ℕ) (reason : Text)
    → (0 < length (handle_vote_cast now idx voter choice pillar reason))
      ↔ (Below 4 choice × Below 5 pillar)
unfolding handle_vote_cast
handle_vote_cast_iff now idx voter choice pillar reason =
    cast_effects-Indexed now idx voter reason choice pillar _ _ (at_index-Indexed choice_map choice)
      (at_index-Indexed pillar_map pillar)

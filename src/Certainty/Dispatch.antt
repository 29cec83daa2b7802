-- ===== src/Certainty/Dispatch.antt =====
-- Which tier an assessment of packages/certainty-engine/src/assess.ts goes to, and what does not
-- matter for it.
use vigil_apex_f.Common.{◌≡◌, ◌≤◌, ◌↔◌, refl, true, false, Option, none, some, List, [], ◌∷◌}
use vigil_apex_f.Certainty.{
  Outcome, returned, thrown, ◌>>=◌, Posterior, Tier, action_queue, log_only, compute_posterior,
  independent_source_count,
}
use vigil_apex_f.Certainty.Double.{Doubles}
use vigil_apex_f.Certainty.Assess.{
  AdversarialOutcome, AssessFindingInput, Assessment, require_signals, prior_of, assessment_of,
  components, assess_finding,
}

require_signals-same :
    {A B C : Type 0} (signals : List A) (f : Outcome B → C) (x y : Outcome B)
    → f x ≡ f y
    → f (require_signals signals x) ≡ f (require_signals signals y)
require_signals-same [] f x y h = refl
require_signals-same (signal ∷ signals) f x y h = h

module _ {Double : Type 0} (d : Doubles Double) where
  -- The tier as a function of what the assessment says of itself.
  pub record IsDispatched (a : Assessment Double) : Type 0 where
    pub action_iff : (a.tier ≡ action_queue) ↔ (
        (d.le d.action_threshold a.posterior_probability ≡ true)
        × (5 ≤ a.independent_source_count)
        × (a.adversarial.coherent ≡ false))
    pub log_only_iff :
        (a.tier ≡ log_only) ↔ (d.le d.investigation_threshold a.posterior_probability ≡ false)

  abbrev pub tier_of : Outcome (Assessment Double) → Option Tier
  tier_of (returned a) = some a.tier
  tier_of (thrown e) = none

  abbrev pub checked :
      AssessFindingInput Double → AdversarialOutcome Double → AssessFindingInput Double
  checked input a = record input { adversarial = some a }

  -- The tier of a finding is the same for two outcomes of the adversarial checks that agree on the
  -- devil's advocate, whatever they say of the order of the evidence, of the counterfactual and of the
  -- second review.
  pub assess_finding-same_tier :
      (input : AssessFindingInput Double) (a b : AdversarialOutcome Double)
      → a.coherent ≡ b.coherent
      → tier_of (assess_finding d (checked input a)) ≡ tier_of (assess_finding d (checked input b))
  unfolding assess_finding assessment_of
  assess_finding-same_tier input a b same =
      require_signals-same input.signals tier_of _ _
        (after-same (compute_posterior d (prior_of d input) (components d input)))
    where
      after : AdversarialOutcome Double → Outcome (Posterior Double) → Option Tier
      after x out = tier_of (
          out >>= λ q.
          returned (assessment_of d (prior_of d input) (components d input) (some x) q))

      after-same : (out : Outcome (Posterior Double)) → after a out ≡ after b out
      after-same (thrown e) = refl
      after-same (returned q) = rw same refl

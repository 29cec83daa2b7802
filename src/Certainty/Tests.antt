-- ===== src/Certainty/Tests.antt =====
-- The theorems about the certainty engine at a concrete finding, in hundredths.
use vigil_apex_f.Common.{ℕ, ◌≡◌, refl, false, none, some, [], ◌∷◌, Text, codes}
use vigil_apex_f.Certainty.{action_queue, compute_posterior, independent_source_count}
use vigil_apex_f.Certainty.Assess.{
  RawSignal, AdversarialOutcome, AssessFindingInput, Assessment, default_adversarial, components,
  assess_finding,
}
use vigil_apex_f.Certainty.Bounds.{IsNamed, compute_posterior-IsNamed}
use vigil_apex_f.Certainty.Dispatch.{tier_of, checked, assess_finding-same_tier}
use vigil_apex_f.Certainty.Fixed.{hundredths, hundredths-IsOrdered, hundredths-IsRounded}

abbrev signal : Text → RawSignal ℕ
signal source = record {
  evidence_id = source;
  pattern_id = some (codes "P-A-001");
  source_id = some source;
  strength = 90;
  provenance_roots = [];
}

abbrev input : AssessFindingInput ℕ
input = record {
  signals =
      signal (codes "a")
      ∷ signal (codes "b")
      ∷ signal (codes "c")
      ∷ signal (codes "d")
      ∷ signal (codes "e")
      ∷ [];
  registry_prior = 5;
  likelihood_ratio = λ pattern. some 500;
  independence = λ a b. 90;
  adversarial = none;
  prior_override = none;
}

abbrev assessed : Assessment ℕ
assessed = record {
  prior_probability = 5;
  posterior_probability = 98;
  independent_source_count = 5;
  tier = action_queue;
  hold_reasons = [];
  adversarial = default_adversarial hundredths 98;
  components = components hundredths input;
}

compute_posterior-IsNamed_example :
    IsNamed hundredths
      (components hundredths input)
      (compute_posterior hundredths 5 (components hundredths input))
unfolding hundredths
compute_posterior-IsNamed_example =
    compute_posterior-IsNamed hundredths hundredths-IsOrdered hundredths-IsRounded 5
      (components hundredths input) refl

abbrev outcome : AdversarialOutcome ℕ
outcome = record (default_adversarial hundredths 98) {
  counterfactual_robust = false;
  order_randomisation_stable = false;
  secondary_review_agreement = false;
}

assess_finding-same_tier_example :
    tier_of hundredths (assess_finding hundredths (checked hundredths input outcome))
    ≡ tier_of hundredths
        (assess_finding hundredths (checked hundredths input (default_adversarial hundredths 98)))
assess_finding-same_tier_example =
    assess_finding-same_tier hundredths input outcome (default_adversarial hundredths 98) refl

-- ===== src/Certainty/Assess.antt =====
-- packages/certainty-engine/src/assess.ts and adversarial.ts: the assessment of a finding and the
-- checks around it. The calls of the language model are given by their answers.
use vigil_apex_f.Common.{
  ℕ, zero, suc, ◌+◌, Bool, true, false, ◌&&◌, not, Option, none, some, List, [], ◌∷◌, ◌++◌, map,
  Text, ltb, if◌then◌else◌,
}
use vigil_apex_f.Certainty.{
  Component, no_signals, Outcome, returned, thrown, ◌>>=◌, Posterior, Tier, Weighed,
  compute_posterior, effective_weights, independent_source_count, dispatch_tier,
}
use vigil_apex_f.Certainty.Double.{Doubles}

pub record RawSignal (Double : Type 0) : Type 0 where
  pub evidence_id : Text
  pub pattern_id : Option Text
  pub source_id : Option Text
  pub strength : Double
  pub provenance_roots : List Text

pub data HoldReason : Type 0 where
  sources_below_minimum : HoldReason
  order_randomisation_disagreement : HoldReason
  devils_advocate_coherent : HoldReason
  counterfactual_collapse : HoldReason
  secondary_review_disagreement : HoldReason

pub record AdversarialOutcome (Double : Type 0) : Type 0 where
  pub coherent : Bool
  pub summary : Option Text
  pub counterfactual_robust : Bool
  pub counterfactual_posterior : Double
  pub order_randomisation_stable : Bool
  pub order_randomisation_min : Double
  pub order_randomisation_max : Double
  pub secondary_review_agreement : Bool

pub record AssessFindingInput (Double : Type 0) : Type 0 where
  pub signals : List (RawSignal Double)
  -- the two registries
  pub registry_prior : Double
  pub likelihood_ratio : Text → Option Double
  pub independence : Text → Text → Double
  pub adversarial : Option (AdversarialOutcome Double)
  pub prior_override : Option Double

pub record Assessment (Double : Type 0) : Type 0 where
  pub prior_probability : Double
  pub posterior_probability : Double
  pub independent_source_count : ℕ
  pub tier : Tier
  pub hold_reasons : List HoldReason
  pub adversarial : AdversarialOutcome Double
  pub components : List (Component Double)

abbrev pub or_else {ℓ} : {A : Type ℓ} → Option A → A → A
or_else none otherwise = otherwise
or_else (some a) otherwise = a

abbrev pub when : Bool → HoldReason → List HoldReason
when test reason = if test then reason ∷ [] else []

-- The roots of a component: the signal's, or its source, or its evidence.
abbrev pub roots_of : List Text → Option Text → Text → List Text
roots_of [] source_id evidence_id = or_else source_id evidence_id ∷ []
roots_of (root ∷ roots) source_id evidence_id = root ∷ roots

-- The guard of assessFinding.
abbrev pub require_signals {ℓ κ} : {A : Type ℓ} {B : Type κ} → List A → Outcome B → Outcome B
require_signals [] rest = thrown no_signals
require_signals (signal ∷ signals) rest = rest

module _ {Double : Type 0} where
  abbrev pub weighed : RawSignal Double → Weighed Double
  weighed s = record { source_id = s.source_id; strength = s.strength }

  unfoldable pub remove_at : ℕ → List (Component Double) → List (Component Double)
  remove_at n [] = []
  remove_at zero (c ∷ cs) = cs
  remove_at (suc n) (c ∷ cs) = c ∷ remove_at n cs

module _ {Double : Type 0} (d : Doubles Double) where
  abbrev pub ratio_of : (Text → Option Double) → Option Text → Double
  ratio_of ratios none = d.one
  ratio_of ratios (some pattern) = or_else (ratios pattern) d.one

  unfoldable pub component_of :
      (Text → Option Double) → RawSignal Double → Double → Component Double
  component_of ratios s weight = record {
    evidence_id = s.evidence_id;
    pattern_id = s.pattern_id;
    source_id = s.source_id;
    strength = s.strength;
    likelihood_ratio = ratio_of ratios s.pattern_id;
    effective_weight = weight;
    provenance_roots = roots_of s.provenance_roots s.source_id s.evidence_id;
  }

  -- `weights[i] ?? 0` for each signal
  unfoldable pub components_of :
      (Text → Option Double) → List (RawSignal Double) → List Double → List (Component Double)
  components_of ratios [] weights = []
  components_of ratios (s ∷ signals) [] =
      component_of ratios s d.zero ∷ components_of ratios signals []
  components_of ratios (s ∷ signals) (w ∷ weights) =
      component_of ratios s w ∷ components_of ratios signals weights

  abbrev pub default_adversarial : Double → AdversarialOutcome Double
  default_adversarial posterior = record {
    coherent = false;
    summary = none;
    counterfactual_robust = true;
    counterfactual_posterior = posterior;
    order_randomisation_stable = true;
    order_randomisation_min = posterior;
    order_randomisation_max = posterior;
    secondary_review_agreement = true;
  }

  unfoldable pub hold_reasons_of : Double → ℕ → AdversarialOutcome Double → List HoldReason
  hold_reasons_of posterior independent a =
      when (ltb independent 5 && d.le d.action_threshold posterior) sources_below_minimum
      ++ (when (not a.order_randomisation_stable) order_randomisation_disagreement
          ++ (when a.coherent devils_advocate_coherent
              ++ (when (not a.counterfactual_robust) counterfactual_collapse
                  ++ when (not a.secondary_review_agreement) secondary_review_disagreement)))

  abbrev pub effective_posterior : Double → AdversarialOutcome Double → Double
  effective_posterior posterior a = if a.coherent then d.min posterior d.downgraded else posterior

  -- What follows the posterior.
  unfoldable pub assessment_of :
      Double
      → List (Component Double)
      → Option (AdversarialOutcome Double)
      → Posterior Double
      → Assessment Double
  assessment_of prior cs given out =
      let independent = independent_source_count cs in
      let adversarial = or_else given (default_adversarial out.posterior) in
      record {
        prior_probability = prior;
        posterior_probability = out.posterior;
        independent_source_count = independent;
        tier = dispatch_tier d (effective_posterior out.posterior adversarial) independent;
        hold_reasons = hold_reasons_of out.posterior independent adversarial;
        adversarial = adversarial;
        components = cs;
      }

  abbrev pub components : AssessFindingInput Double → List (Component Double)
  components input =
      components_of input.likelihood_ratio input.signals
        (effective_weights d input.independence (map weighed input.signals))

  abbrev pub prior_of : AssessFindingInput Double → Double
  prior_of input = or_else input.prior_override input.registry_prior

  unfoldable pub assess_finding : AssessFindingInput Double → Outcome (Assessment Double)
  assess_finding input = require_signals input.signals (
      compute_posterior d (prior_of input) (components input) >>= λ out.
      returned (assessment_of (prior_of input) (components input) input.adversarial out))

  abbrev pub contribution : Component Double → Double
  contribution c = d.mul c.effective_weight (d.sub c.likelihood_ratio d.one)

  -- The loop for the strongest component: its position, from the position and the value so far.
  unfoldable pub strongest_from : ℕ → List (Component Double) → ℕ → Double → ℕ
  strongest_from i [] best strongest = best
  strongest_from i (c ∷ cs) best strongest = elim (d.lt strongest (contribution c)) [
    | true ↦ strongest_from (i + 1) cs i (contribution c)
    | false ↦ strongest_from (i + 1) cs best strongest
  ]

  -- The posterior and whether it is robust.
  unfoldable pub counterfactual_probe : Double → List (Component Double) → Outcome (Double × Bool)
  counterfactual_probe prior [] = returned (prior, false)
  counterfactual_probe prior (c ∷ cs) =
      compute_posterior d prior (remove_at (strongest_from 0 (c ∷ cs) 0 d.lowest) (c ∷ cs))
      >>= λ out. returned (out.posterior, d.le d.action_threshold out.posterior)

  -- What the evaluator answers: three orders, the devil's advocate and the second review.
  pub record Answers : Type 0 where
    pub first_order : Double
    pub second_order : Double
    pub third_order : Double
    pub coherent : Bool
    pub summary : Option Text
    pub agreement : Bool
    pub secondary_posterior : Double

  unfoldable pub run_adversarial :
      Double
      → Double
      → Double
      → List (Component Double)
      → Answers
      → Outcome (AdversarialOutcome Double)
  run_adversarial order_tolerance secondary_tolerance prior cs a =
      let order_min = d.min a.first_order (d.min a.second_order a.third_order) in
      let order_max = d.max a.first_order (d.max a.second_order a.third_order) in
      counterfactual_probe prior cs >>= λ cf. compute_posterior d prior cs >>= λ primary.
      returned (record {
        coherent = a.coherent;
        summary = a.summary;
        counterfactual_robust = cf.1;
        counterfactual_posterior = cf.0;
        order_randomisation_stable = d.le (d.sub order_max order_min) order_tolerance;
        order_randomisation_min = order_min;
        order_randomisation_max = order_max;
        secondary_review_agreement =
            a.agreement
            && d.le (d.abs (d.sub a.secondary_posterior primary.posterior)) secondary_tolerance;
      })

-- ===== src/Certainty.antt =====
-- packages/certainty-engine/src/bayes.ts: the Bayesian update of a finding, the weights of its
-- components and the tier that it is dispatched to.
pub mod Double
pub mod Assess
pub mod Bounds
pub mod Dispatch
pub mod Fixed
mod Tests
use vigil_apex_f.Common.{
  ℕ, zero, suc, ◌+◌, Bool, true, false, ◌&&◌, ◌||◌, not, Option, none, some, List, [], ◌∷◌, Text,
  leb, ◌==◌, if◌then◌else◌, text_eq, any, length,
}
use vigil_apex_f.Certainty.Double.{Doubles}

pub record Component (Double : Type 0) : Type 0 where
  pub evidence_id : Text
  pub pattern_id : Option Text
  pub source_id : Option Text
  pub strength : Double
  pub likelihood_ratio : Double
  pub effective_weight : Double
  pub provenance_roots : List Text

pub data Thrown : Type 0 where
  prior_outside : Thrown
  odds_invalid : Thrown
  -- the evidence id
  ratio_not_finite : Text → Thrown
  weight_not_finite : Text → Thrown
  ratio_not_positive : Text → Thrown
  weight_outside : Text → Thrown
  damped_not_positive : Text → Thrown
  no_signals : Thrown

pub data Outcome {ℓ} (A : Type ℓ) : Type ℓ where
  returned : A → Outcome A
  thrown : Thrown → Outcome A

pub record Posterior (Double : Type 0) : Type 0 where
  pub prior_odds : Double
  pub posterior_odds : Double
  pub posterior : Double

pub data Tier : Type 0 where
  action_queue : Tier
  investigation_queue : Tier
  log_only : Tier

infixl 5 ◌>>=◌
abbrev pub ◌>>=◌ {ℓ κ} : {A : Type ℓ} {B : Type κ} → Outcome A → (A → Outcome B) → Outcome B
attempt >>= rest = elim attempt [ returned value ↦ rest value | thrown error ↦ thrown error ]

-- A component, or the source of a signal, as effectiveWeights reads it.
pub record Weighed (Double : Type 0) : Type 0 where
  pub source_id : Option Text
  pub strength : Double

-- set.add(root) for each root
abbrev pub add_root : Text → List Text → List Text
add_root root set = if any (text_eq root) set then set else root ∷ set

unfoldable pub add_roots : List Text → List Text → List Text
add_roots [] set = set
add_roots (root ∷ roots) set = add_roots roots (add_root root set)

module _ {Double : Type 0} where
  unfoldable pub all_roots : List (Component Double) → List Text → List Text
  all_roots [] set = set
  all_roots (c ∷ cs) set = all_roots cs (add_roots c.provenance_roots set)

  unfoldable pub independent_source_count : List (Component Double) → ℕ
  independent_source_count cs = length (all_roots cs [])

module _ {Double : Type 0} (d : Doubles Double) where
  unfoldable pub prior_to_odds : Double → Outcome Double
  prior_to_odds prior =
      if d.le prior d.zero || d.le d.one prior
      then thrown prior_outside
      else returned (d.div prior (d.sub d.one prior))

  unfoldable pub odds_to_probability : Double → Outcome Double
  odds_to_probability odds =
      if d.is_nan odds || d.lt odds d.zero
      then thrown odds_invalid
      else if not (d.is_finite odds) || d.lt d.odds_clamp odds
      then returned (d.div d.odds_clamp (d.add d.one d.odds_clamp))
      else returned (d.div odds (d.add d.one odds))

  abbrev pub clamp_odds : Double → Double
  clamp_odds odds = if d.lt d.odds_clamp odds then d.odds_clamp else odds

  -- `1 + c.effective_weight * (c.likelihood_ratio - 1)`
  abbrev pub damped : Component Double → Double
  damped c = d.add d.one (d.mul c.effective_weight (d.sub c.likelihood_ratio d.one))

  -- The body of the loop over the components.
  unfoldable pub update_odds : Component Double → Double → Outcome Double
  update_odds c odds =
      if d.is_finite c.likelihood_ratio
      then if d.is_finite c.effective_weight
        then if d.le c.likelihood_ratio d.zero
          then thrown (ratio_not_positive c.evidence_id)
          else if d.lt c.effective_weight d.zero || d.lt d.one c.effective_weight
          then thrown (weight_outside c.evidence_id)
          else if d.le (damped c) d.zero
          then thrown (damped_not_positive c.evidence_id)
          else returned (clamp_odds (d.mul odds (damped c)))
        else thrown (weight_not_finite c.evidence_id)
      else thrown (ratio_not_finite c.evidence_id)

  unfoldable pub update_all : List (Component Double) → Double → Outcome Double
  update_all [] odds = returned odds
  update_all (c ∷ cs) odds = update_odds c odds >>= update_all cs

  unfoldable pub compute_posterior : Double → List (Component Double) → Outcome (Posterior Double)
  compute_posterior prior cs = prior_to_odds prior >>= λ prior_odds.
      update_all cs prior_odds >>= λ odds. odds_to_probability odds >>= λ posterior.
      returned (record { prior_odds = prior_odds; posterior_odds = odds; posterior = posterior })

  unfoldable pub clamp_unit : Double → Double
  clamp_unit n =
      if not (d.is_finite n)
      then d.zero
      else if d.lt n d.zero
      then d.zero
      else if d.lt d.one n
      then d.one
      else n

  abbrev pub lower_indep : Double → Double → Double
  lower_indep w least = if d.is_finite w && d.lt w least then w else least

  -- The inner loop, over the positions other than `idx`.
  unfoldable pub min_indep :
      (Text → Text → Double) → Text → ℕ → ℕ → List (Weighed Double) → Double → Double
  min_indep independence source idx j [] least = least
  min_indep independence source idx j (other ∷ others) least =
      min_indep independence source idx (j + 1) others (
        if j == idx then least else elim other.source_id [
          | none ↦ least
          | some that ↦ lower_indep (independence source that) least
        ])

  unfoldable pub weight_of :
      (Text → Text → Double) → List (Weighed Double) → ℕ → Weighed Double → Double
  weight_of independence all idx c = elim c.source_id [
    | none ↦ clamp_unit c.strength
    | some source ↦ clamp_unit (d.mul c.strength (min_indep independence source idx 0 all d.one))
  ]

  unfoldable pub weights_from :
      (Text → Text → Double) → List (Weighed Double) → ℕ → List (Weighed Double) → List Double
  weights_from independence all idx [] = []
  weights_from independence all idx (c ∷ cs) =
      weight_of independence all idx c ∷ weights_from independence all (idx + 1) cs

  unfoldable pub effective_weights : (Text → Text → Double) → List (Weighed Double) → List Double
  effective_weights independence cs = weights_from independence cs 0 cs

  unfoldable pub dispatch_tier : Double → ℕ → Tier
  dispatch_tier p n =
      if d.le d.action_threshold p && leb 5 n
      then action_queue
      else if d.le d.investigation_threshold p
      then investigation_queue
      else log_only

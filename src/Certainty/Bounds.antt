-- ===== src/Certainty/Bounds.antt =====
-- What the update of packages/certainty-engine/src/bayes.ts returns and throws.
use vigil_apex_f.Common.{
  ◌≡◌, refl, ◌⊎◌, inl, inr, true, false, ◌||◌, List, [], ◌∷◌, arith, Any, Bool-cases,
}
use vigil_apex_f.Certainty.{
  Component, Thrown, prior_outside, odds_invalid, ratio_not_finite, weight_not_finite,
  ratio_not_positive, weight_outside, damped_not_positive, no_signals, Outcome, returned, thrown,
  Posterior, ◌>>=◌, prior_to_odds, odds_to_probability, clamp_odds, damped, update_odds, update_all,
  compute_posterior,
}
use vigil_apex_f.Certainty.Double.{Doubles, IsOrdered, IsRounded}

module _ {Double : Type 0} where
  -- The error is about the component.
  abbrev pub Blames : Thrown → Component Double → Type 0
  Blames (ratio_not_finite id) c = id ≡ c.evidence_id
  Blames (weight_not_finite id) c = id ≡ c.evidence_id
  Blames (ratio_not_positive id) c = id ≡ c.evidence_id
  Blames (weight_outside id) c = id ≡ c.evidence_id
  Blames (damped_not_positive id) c = id ≡ c.evidence_id
  Blames prior_outside c = ⊥
  Blames odds_invalid c = ⊥
  Blames no_signals c = ⊥

module _ {Double : Type 0} (d : Doubles Double) where
  -- A probability in the unit interval, or an error that names the prior or a component.
  abbrev pub IsNamed : List (Component Double) → Outcome (Posterior Double) → Type 0
  IsNamed cs (returned q) = (d.le d.zero q.posterior ≡ true) × (d.le q.posterior d.one ≡ true)
  IsNamed cs (thrown e) = (e ≡ prior_outside) ⊎ Any (Blames e) cs

module _ {Double : Type 0} (d : Doubles Double) (o : IsOrdered d) (r : IsRounded d) where
  -- Odds that the loop hands on.
  abbrev InClamp : Double → Type 0
  InClamp odds = d.le d.zero odds ≡ true

  InClamp-clamp : (x : Double) → InClamp x → InClamp (clamp_odds d x)
  InClamp-clamp x h = elim (Bool-cases (d.lt d.odds_clamp x)) [
    | inl above ↦ rw above o.zero_le_clamp
    | inr below ↦ rw below h
  ]

  -- A step throws an error that names its component, or keeps the odds at zero or above.
  abbrev Stepped : List (Component Double) → Outcome Double → Type 0
  Stepped cs (returned odds) = InClamp odds
  Stepped cs (thrown e) = Any (Blames e) cs

  damped-InClamp :
      (c : Component Double) (odds : Double)
      → InClamp odds
      → d.is_finite c.likelihood_ratio ≡ true
      → d.is_finite c.effective_weight ≡ true
      → d.le c.likelihood_ratio d.zero ≡ false
      → (d.lt c.effective_weight d.zero || d.lt d.one c.effective_weight) ≡ false
      → d.le (damped d c) d.zero ≡ false
      → InClamp (d.mul odds (damped d c))
  damped-InClamp c odds h ratio weight positive unit up =
      let zero_number = o.finite_number d.zero o.zero_finite in
      let one_number = o.finite_number d.one o.one_finite in
      let weight_number = o.finite_number c.effective_weight weight in
      let from_zero =
        o.not_lt c.effective_weight d.zero weight_number zero_number (ground (arith, unit)) in
      let to_one =
        o.not_lt d.one c.effective_weight one_number weight_number (ground (arith, unit)) in
      let above =
        o.not_le c.likelihood_ratio d.zero (o.finite_number c.likelihood_ratio ratio) zero_number
          positive in
      let finite = r.one_add (d.mul c.effective_weight (d.sub c.likelihood_ratio d.one)) (
        r.mul_unit c.effective_weight (d.sub c.likelihood_ratio d.one)
          (r.sub_one c.likelihood_ratio ratio above) from_zero to_one) in
      r.mul_nonneg odds (damped d c) h
        (o.not_le (damped d c) d.zero (o.finite_number (damped d c) finite) zero_number up) finite

  update_odds-Stepped :
      (c : Component Double) (odds : Double)
      → InClamp odds
      → Stepped (c ∷ []) (update_odds d c odds)
  unfolding update_odds
  update_odds-Stepped c odds h = elim (Bool-cases (d.is_finite c.likelihood_ratio)) [
    | inr off ↦ rw off (inl refl)
    | inl ratio ↦ elim (Bool-cases (d.is_finite c.effective_weight)) [
      | inr off ↦ rw (ratio, off) (inl refl)
      | inl weight ↦ elim (Bool-cases (d.le c.likelihood_ratio d.zero)) [
        | inl off ↦ rw (ratio, weight, off) (inl refl)
        | inr positive ↦
            elim (Bool-cases (d.lt c.effective_weight d.zero || d.lt d.one c.effective_weight)) [
              | inl off ↦ rw (ratio, weight, positive, off) (inl refl)
              | inr unit ↦ elim (Bool-cases (d.le (damped d c) d.zero)) [
                | inl off ↦ rw (ratio, weight, positive, unit, off) (inl refl)
                | inr up ↦
                    rw (ratio, weight, positive, unit, up)
                      (InClamp-clamp (d.mul odds (damped d c))
                        (damped-InClamp c odds h ratio weight positive unit up))
              ]
            ]
      ]
    ]
  ]

  and_then-Stepped :
      (c : Component Double) (cs : List (Component Double)) (step : Outcome Double)
      → Stepped (c ∷ []) step
      → ((odds : Double) → InClamp odds → Stepped cs (update_all d cs odds))
      → Stepped (c ∷ cs) (step >>= update_all d cs)
  and_then-Stepped c cs (thrown e) (inl h) rest = inl h
  and_then-Stepped c cs (thrown e) (inr h) rest = elim h [ ]
  and_then-Stepped c cs (returned odds) h rest = go (update_all d cs odds) (rest odds h)
    where
      go : (x : Outcome Double) → Stepped cs x → Stepped (c ∷ cs) x
      go (returned y) k = k
      go (thrown e) k = inr k

  update_all-Stepped :
      (cs : List (Component Double)) (odds : Double)
      → InClamp odds
      → Stepped cs (update_all d cs odds)
  unfolding update_all
  update_all-Stepped [] odds h = h
  update_all-Stepped (c ∷ cs) odds h =
      and_then-Stepped c cs (update_odds d c odds) (update_odds-Stepped c odds h)
        (update_all-Stepped cs)

  -- A returned probability lies in the unit interval.
  abbrev InUnit : Double → Type 0
  InUnit x = (d.le d.zero x ≡ true) × (d.le x d.one ≡ true)

  share-InUnit : (x : Double) → d.is_finite x ≡ true → InClamp x → InUnit (d.div x (d.add d.one x))
  share-InUnit x finite h =
      let (above, positive) = r.add_above x finite h in
      (
        r.div_nonneg x (d.add d.one x) finite h positive,
        r.div_le_one x (d.add d.one x) finite h above positive,
      )

  odds_to_probability-InUnit :
      (odds : Double)
      → InClamp odds
      → (p : Double) × (odds_to_probability d odds ≡ returned p) × InUnit p
  unfolding odds_to_probability
  odds_to_probability-InUnit odds h =
      let clamped = share-InUnit d.odds_clamp o.clamp_finite o.zero_le_clamp in
      rw (o.le_number d.zero odds h, o.le_not_lt d.zero odds h)
        (elim (Bool-cases (d.is_finite odds)) [
          | inr off ↦ rw off (d.div d.odds_clamp (d.add d.one d.odds_clamp), refl, clamped)
          | inl finite ↦ elim (Bool-cases (d.lt d.odds_clamp odds)) [
            | inl off ↦
                rw (finite, off) (d.div d.odds_clamp (d.add d.one d.odds_clamp), refl, clamped)
            | inr fits ↦
                rw (finite, fits) (d.div odds (d.add d.one odds), refl, share-InUnit odds finite h)
          ]
        ])

  prior_to_odds-InClamp :
      (prior : Double)
      → d.is_nan prior ≡ false
      → (prior_to_odds d prior ≡ thrown prior_outside)
        ⊎ ((odds : Double) × (prior_to_odds d prior ≡ returned odds) × InClamp odds)
  unfolding prior_to_odds
  prior_to_odds-InClamp prior number = elim (Bool-cases (d.le prior d.zero || d.le d.one prior)) [
    | inl off ↦ inl (rw off refl)
    | inr fits ↦
        let zero_number = o.finite_number d.zero o.zero_finite in
        let one_number = o.finite_number d.one o.one_finite in
        let above = o.not_le prior d.zero number zero_number (ground (arith, fits)) in
        let below = o.not_le d.one prior one_number number (ground (arith, fits)) in
        inr (
          d.div prior (d.sub d.one prior),
          rw fits refl,
          r.div_nonneg prior (d.sub d.one prior)
              (o.unit_finite prior (o.lt_le d.zero prior above) (o.lt_le prior d.one below))
              (o.lt_le d.zero prior above) (r.sub_positive prior below),
        )
  ]

  from_odds-IsNamed :
      (prior : Double) (cs : List (Component Double)) (step : Outcome Double)
      → Stepped cs step
      → IsNamed d cs (
          step >>= λ odds. odds_to_probability d odds >>= λ posterior.
          returned (record { prior_odds = prior; posterior_odds = odds; posterior = posterior }))
  from_odds-IsNamed prior cs (thrown e) h = inr h
  from_odds-IsNamed prior cs (returned odds) h =
      let (p, e, unit) = odds_to_probability-InUnit odds h in rw e unit

  -- For every prior that is a number, computePosterior returns a probability between zero and one or
  -- throws an error about the prior or about a component of the finding; it never throws the error of
  -- oddsToProbability.
  pub compute_posterior-IsNamed :
      (prior : Double) (cs : List (Component Double))
      → d.is_nan prior ≡ false
      → IsNamed d cs (compute_posterior d prior cs)
  unfolding compute_posterior
  compute_posterior-IsNamed prior cs number = elim (prior_to_odds-InClamp prior number) [
    | inl outside ↦ rw outside (inl refl)
    | inr (odds, e, h) ↦
        rw e (from_odds-IsNamed odds cs (update_all d cs odds) (update_all-Stepped cs odds h))
  ]

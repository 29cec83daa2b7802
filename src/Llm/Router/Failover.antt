-- ===== src/Llm/Router/Failover.antt =====
-- What the calls of packages/llm/src/router.ts return and record.
use vigil_apex_f.Common.{
  ℕ, ◌≤◌, ◌<◌, ◌≡◌, ◌↔◌, inl, inr, refl, sym, subst, ◌∙◌, true, false, ◌&&◌, some, List, [], ◌∷◌,
  Text, arith, All, Any, leb, Bool-cases, Option-cases,
}
use vigil_apex_f.Llm.Cost.{CostCeilings, CostTracker, spent_last24h, enforce_before_call}
use vigil_apex_f.Llm.Router.{
  Result, Provider, cost_ceiling, Called, returned, failed, recorded, try_providers, call, calls,
}

-- A provider whose answer is returned, and one that is passed over.
abbrev pub IsServing : Provider → Type 0
IsServing p =
    (p.healthy ≡ true)
    × ((r : Result) × (p.response ≡ some r) × (r.schema_ok ≡ true) × (r.guards_ok ≡ true))

module _ (month_start : ℕ → ℕ) where
  enforce-over :
      (c : CostCeilings) (t : CostTracker)
      → c.daily_hard ≤ spent_last24h t
      → enforce_before_call c t ≡ some (spent_last24h t)
  unfolding enforce_before_call
  enforce-over c t h =
      let over : leb c.daily_hard (spent_last24h t) ≡ true = ground (arith, h) in rw over refl

  -- Once the history adds up to the hard ceiling, every later call is refused, whenever it is made and
  -- whatever the providers would answer, and the history stays as it is.
  pub calls-over_ceiling :
      (c : CostCeilings) (batch : List (List Provider)) (t : CostTracker)
      → c.daily_hard ≤ spent_last24h t
      → ((calls month_start c batch t).0 ≡ t)
        × All (λ a. a ≡ failed (cost_ceiling (spent_last24h t))) (calls month_start c batch t).1
  unfolding calls call
  calls-over_ceiling c [] t h = (refl, tt)
  calls-over_ceiling c (ps ∷ rest) t h =
      let (same, refused) = calls-over_ceiling c rest t h in
      rw (calls, call, enforce-over c t h) (same, (refl, refused))

  abbrev IsReturned : Called → Type 0
  IsReturned a = (name : Text) × (content : Text) × (a ≡ returned name content)

  -- Where a provider answers, its checks decide.
  serving_checks :
      (p : Provider) (r : Result)
      → p.response ≡ some r
      → IsServing p
      → (r.schema_ok && r.guards_ok) ≡ true
  serving_checks p r e (up, (q, e', schema, guards)) =
      let same : q ≡ r = cc (sym e' ∙ e) in
      let schema' : r.schema_ok ≡ true = subst (λ x. x.schema_ok ≡ true) same schema in
      let guards' : r.guards_ok ≡ true = subst (λ x. x.guards_ok ≡ true) same guards in
      ground (arith, schema', guards')

  passed_over :
      (p : Provider) (ps : List Provider) (t : CostTracker)
      → (IsServing p → ⊥)
      → ((t' : CostTracker) → IsReturned (try_providers month_start ps t').1 ↔ Any IsServing ps)
      → IsReturned (try_providers month_start ps t).1 ↔ Any IsServing (p ∷ ps)
  passed_over p ps t off rest = (
    λ h. inr ((rest t).0 h),
    λ h. elim h [ inl here ↦ absurd (off here) | inr later ↦ (rest t).1 later ],
  )

  same_answer :
      (B : Type 0) (x y : CostTracker × Called) → x ≡ y → IsReturned y.1 ↔ B → IsReturned x.1 ↔ B
  same_answer B x y e h = subst (λ z. IsReturned z.1 ↔ B) (sym e) h

  try_providers_iff :
      (ps : List Provider) (t : CostTracker)
      → IsReturned (try_providers month_start ps t).1 ↔ Any IsServing ps
  unfolding try_providers
  try_providers_iff [] t = (λ h. cc (h.2), λ h. elim h [ ])
  try_providers_iff (p ∷ ps) t =
      let here = same_answer (Any IsServing (p ∷ ps)) (try_providers month_start (p ∷ ps) t) in
      elim (Bool-cases p.healthy) [
        | inr down ↦
            here (try_providers month_start ps t) (rw (try_providers, down) refl)
              (passed_over p ps t (λ s. cc (down, s.0)) (try_providers_iff ps))
        | inl up ↦ elim (Option-cases p.response) [
          | inl thrown ↦
              here (try_providers month_start ps t) (rw (try_providers, up, thrown) refl)
                (passed_over p ps t (λ s. cc (thrown, s.1.1)) (try_providers_iff ps))
          | inr (r, e) ↦ elim (Bool-cases (r.schema_ok && r.guards_ok)) [
            | inl good ↦
                here (recorded month_start r t, returned p.name r.content)
                  (rw (try_providers, up, e, good) refl)
                  (
                    λ h. inl (up, (r, e, ground (arith, good), ground (arith, good))),
                    λ h. (p.name, r.content, refl),
                  )
            | inr bad ↦
                here (try_providers month_start ps (recorded month_start r t))
                  (rw (try_providers, up, e, bad) refl)
                  (passed_over p ps (recorded month_start r t)
                    (λ s. cc (bad, serving_checks p r e s)) (try_providers_iff ps))
          ]
        ]
      ]

  -- Below the hard ceiling, a call returns an answer exactly when some provider is healthy and its
  -- answer passes the schema and the guards.
  pub call_iff :
      (c : CostCeilings) (ps : List Provider) (t : CostTracker)
      → spent_last24h t < c.daily_hard
      → IsReturned (call month_start c ps t).1 ↔ Any IsServing ps
  unfolding call enforce_before_call
  call_iff c ps t h =
      let under : leb c.daily_hard (spent_last24h t) ≡ false = ground (arith, h) in
      rw under (try_providers_iff ps t)

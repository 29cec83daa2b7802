-- ===== src/Llm/Router.antt =====
-- packages/llm/src/router.ts: LlmRouter.call over its providers, with the costs that it records. What
-- a provider answers, and whether the answer passes its schema and the guards, is given.
pub mod Failover
use vigil_apex_f.Common.{
  ℕ, ◌+◌, Bool, true, false, ◌&&◌, Option, none, some, List, [], ◌∷◌, Text, if◌then◌else◌,
}
use vigil_apex_f.Llm.Cost.{
  CostCeilings, UsageRecord, CostTracker, enforce_before_call, record_usage,
}

pub record Result : Type 0 where
  pub content : Text
  pub cost : ℕ
  -- the instant of cost.record
  pub at : ℕ
  -- responseSchema.parse returns, where there is a schema, and assertGuardsPass returns
  pub schema_ok : Bool
  pub guards_ok : Bool

pub record Provider : Type 0 where
  pub name : Text
  pub healthy : Bool
  -- `none` is a call that throws
  pub response : Option Result

pub data CallError : Type 0 where
  cost_ceiling : ℕ → CallError
  all_tiers_failed : CallError

pub data Called : Type 0 where
  returned : Text → Text → Called
  failed : CallError → Called

module _ (month_start : ℕ → ℕ) where
  abbrev pub recorded : Result → CostTracker → CostTracker
  recorded r t = record_usage month_start r.at (record { cost = r.cost; at = r.at }) t

  -- The loop over the providers. The error of a schema or of a guard is caught like any other.
  unfoldable pub try_providers : List Provider → CostTracker → CostTracker × Called
  try_providers [] t = (t, failed all_tiers_failed)
  try_providers (p ∷ ps) t = elim p.healthy [
    | false ↦ try_providers ps t
    | true ↦ elim p.response [
      | none ↦ try_providers ps t
      | some r ↦ elim (r.schema_ok && r.guards_ok) [
        | true ↦ (recorded r t, returned p.name r.content)
        | false ↦ try_providers ps (recorded r t)
      ]
    ]
  ]

  abbrev pub unless_ceiling : Option ℕ → List Provider → CostTracker → CostTracker × Called
  unless_ceiling (some spent) ps t = (t, failed (cost_ceiling spent))
  unless_ceiling none ps t = try_providers ps t

  unfoldable pub call : CostCeilings → List Provider → CostTracker → CostTracker × Called
  call c ps t = unless_ceiling (enforce_before_call c t) ps t

  unfoldable pub calls :
      CostCeilings → List (List Provider) → CostTracker → CostTracker × List Called
  calls c [] t = (t, [])
  calls c (ps ∷ rest) t =
      let (t', answer) = call c ps t in
      let (end, answers) = calls c rest t' in (end, answer ∷ answers)

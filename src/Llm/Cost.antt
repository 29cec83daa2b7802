-- ===== src/Llm/Cost.antt =====
-- packages/llm/src/cost.ts: CostTracker, in a unit of money whose sums are exact. `month_start` gives
-- the first instant of the month of an instant.
use vigil_apex_f.Common.{
  ℕ, ◌+◌, Bool, Option, none, some, List, [], ◌∷◌, ◌++◌, ltb, leb, if◌then◌else◌,
}

pub record CostCeilings : Type 0 where
  pub daily_soft : ℕ
  pub daily_hard : ℕ
  -- monthlyUsd * monthlyCircuitFraction
  pub monthly_threshold : ℕ

pub record UsageRecord : Type 0 where
  pub cost : ℕ
  pub at : ℕ

pub record CostTracker : Type 0 where
  pub history : List UsageRecord
  pub monthly_cost : ℕ
  pub monthly_reset_at : ℕ

-- What shouldAllow does: it returns whether to allow, or throws LlmCostCeilingError.
pub data Answer : Type 0 where
  allow : Answer
  monthly_circuit : ℕ → Answer
  ceiling_error : ℕ → Answer

abbrev pub total : List UsageRecord → ℕ
total [] = 0
total (r ∷ rs) = r.cost + total rs

unfoldable pub spent_last24h : CostTracker → ℕ
spent_last24h t = total t.history

-- The error that enforceBeforeCall throws, if it throws one.
unfoldable pub enforce_before_call : CostCeilings → CostTracker → Option ℕ
enforce_before_call c t =
    if leb c.daily_hard (spent_last24h t) then some (spent_last24h t) else none

-- The `while` that shifts the records before the cutoff off the front; `day` is 86_400_000.
abbrev pub day : ℕ
day = 86400000

unfoldable pub trim : ℕ → List UsageRecord → List UsageRecord
trim now [] = []
trim now (r ∷ rs) = let rest = trim now rs in if ltb (r.at + day) now then rest else r ∷ rs

module _ (month_start : ℕ → ℕ) where
  unfoldable pub roll_monthly_if_needed : ℕ → CostTracker → CostTracker
  roll_monthly_if_needed now t =
      if ltb t.monthly_reset_at (month_start now)
      then record t { monthly_cost = 0; monthly_reset_at = month_start now }
      else t

  unfoldable pub spent_this_month : ℕ → CostTracker → CostTracker × ℕ
  spent_this_month now t = let t' = roll_monthly_if_needed now t in (t', t'.monthly_cost)

  abbrev pub after_month : CostCeilings → CostTracker × ℕ → CostTracker × Answer
  after_month c (t, spent) =
      if leb c.monthly_threshold spent then (t, monthly_circuit spent) else (t, allow)

  unfoldable pub should_allow : CostCeilings → ℕ → Bool → CostTracker → CostTracker × Answer
  should_allow c now critical t = elim (enforce_before_call c t) [
    | some spent ↦ (t, ceiling_error spent)
    | none ↦ if critical then (t, allow) else after_month c (spent_this_month now t)
  ]

  unfoldable pub record_usage : ℕ → UsageRecord → CostTracker → CostTracker
  record_usage now r t =
      let rolled = roll_monthly_if_needed now t in
      record {
        history = trim now (t.history ++ (r ∷ []));
        monthly_cost = rolled.monthly_cost + r.cost;
        monthly_reset_at = rolled.monthly_reset_at;
      }

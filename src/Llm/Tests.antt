-- ===== src/Llm/Tests.antt =====
-- The theorems about the circuit breaker and the router at concrete states.
use vigil_apex_f.Common.{
  ◌≡◌, refl, false, none, [], ◌∷◌, All, Any, arith, ◌+◌, ◌*◌, ◌/◌, ◌↔◌, ℕ, true, some, codes, Text,
}
use vigil_apex_f.Llm.Circuit.{
  CircuitOptions, Circuit, opened, fresh, is_open, record_failure, happen, run, failure, asks,
  asks-after_probe,
}
use vigil_apex_f.Llm.Cost.{CostCeilings, CostTracker, spent_last24h}
use vigil_apex_f.Llm.Router.{Provider, returned, failed, cost_ceiling, call, calls}
use vigil_apex_f.Llm.Router.Failover.{IsServing, calls-over_ceiling, call_iff}

abbrev options : CircuitOptions
options = record {
  failure_threshold = 2;
  failure_window_ms = 100;
  probe_interval_ms = 1000;
  latency_timeout_ms = none;
}

abbrev tripped : Circuit
tripped = record { state = opened; failures = 5 ∷ 10 ∷ []; next_probe_at = 1010 }

fresh-run : run options (failure 5 ∷ failure 10 ∷ []) fresh ≡ tripped
unfolding run happen record_failure
fresh-run = refl

asks-after_probe_example :
    All (λ a. a ≡ false) (asks options (1010 ∷ 1011 ∷ []) tripped)
    × All
        (λ a. a ≡ false)
        (asks options (1011 ∷ []) (record_failure options 1020 (is_open 1010 tripped).0))
asks-after_probe_example =
    asks-after_probe options 1010 1020 (1011 ∷ []) tripped refl (omega arith) (omega arith)
      (omega arith, (omega arith, tt))

abbrev month_start : ℕ → ℕ
month_start now = now / 2592000000 * 2592000000

abbrev ceilings : CostCeilings
ceilings = record { daily_soft = 30; daily_hard = 100; monthly_threshold = 2000 }

abbrev tracker : ℕ → CostTracker
tracker spent = record {
  history = record { cost = spent; at = 1000 } ∷ [];
  monthly_cost = spent;
  monthly_reset_at = 0;
}

spent-tracker : (n : ℕ) → spent_last24h (tracker n) ≡ n + 0
unfolding spent_last24h
spent-tracker n = refl

abbrev provider : Provider
provider = record {
  name = codes "anthropic";
  healthy = true;
  response =
      some
        (record { content = codes "{}"; cost = 3; at = 5000; schema_ok = true; guards_ok = true });
}

calls-over_ceiling_example :
    ((calls month_start ceilings ((provider ∷ []) ∷ (provider ∷ []) ∷ []) (tracker 120)).0
      ≡ tracker 120)
    × All
        (λ a. a ≡ failed (cost_ceiling (spent_last24h (tracker 120))))
        (calls month_start ceilings ((provider ∷ []) ∷ (provider ∷ []) ∷ []) (tracker 120)).1
calls-over_ceiling_example =
    calls-over_ceiling month_start ceilings ((provider ∷ []) ∷ (provider ∷ []) ∷ []) (tracker 120)
      (omega (arith, spent-tracker 120))

call_iff_example :
    ((name : Text) × (content : Text) × ((call month_start ceilings (provider ∷ []) (tracker 20)).1
        ≡ returned name content))
    ↔ Any IsServing (provider ∷ [])
call_iff_example =
    call_iff month_start ceilings (provider ∷ []) (tracker 20) (omega (arith, spent-tracker 20))

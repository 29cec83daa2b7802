-- ===== src/Observability/Tests.antt =====
-- The theorems about the backoff, the retry budget and the sentinels at concrete inputs.
use vigil_apex_f.Common.{◌≡◌, refl, List, [], ◌∷◌, codes}
use vigil_apex_f.Observability.Backoff.{LoopBackoffOptions}
use vigil_apex_f.Observability.Budget.{RetryBudgetOptions, allowed_times, try_reserve}
use vigil_apex_f.Observability.Sentinel.{
  Site, helsinki, tokyo, nyc, SentinelReport, SentinelOutcome, up, down,
}

abbrev minute : LoopBackoffOptions
minute = record { initial_ms = 1000; cap_ms = 60000; jitter_bp = 0 }

abbrev two_a_minute : RetryBudgetOptions
two_a_minute = record { max_per_window = 2; window_seconds = 60 }

two_a_minute-run : allowed_times two_a_minute (1 ∷ 5 ∷ 70000 ∷ 9 ∷ []) [] ≡ 1 ∷ 5 ∷ 70000 ∷ []
unfolding allowed_times try_reserve
two_a_minute-run = refl

abbrev report : Site → SentinelOutcome → SentinelReport
report s o = record {
  site = s;
  target = codes "dashboard";
  outcome = o;
  observed_at = codes "2026-05-16";
}

abbrev reports : List SentinelReport
reports = report helsinki down ∷ report tokyo up ∷ report nyc down ∷ []

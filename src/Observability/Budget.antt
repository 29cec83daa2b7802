-- ===== src/Observability/Budget.antt =====
-- RetryBudget of packages/observability/src/retry-budget.ts. Redis keeps one counter per window; a
-- counter lives at least as long as its window lasts, so no expiry falls between the calls of one
-- window.
use vigil_apex_f.Common.{
  ℕ, ◌+◌, ◌/◌, Bool, Option, none, some, List, [], ◌∷◌, leb, ◌==◌, if◌then◌else◌, keep, map_set,
  map_get,
}

pub record RetryBudgetOptions : Type 0 where
  pub max_per_window : ℕ
  pub window_seconds : ℕ

-- The constructor's checks; a missing window length is 60.
unfoldable pub make : ℕ → Option ℕ → Option RetryBudgetOptions
make max_per_window window =
    let seconds : ℕ = elim window [ none ↦ 60 | some s ↦ s ] in
    if leb max_per_window 0
    then none
    else if leb seconds 0
    then none
    else some (record { max_per_window = max_per_window; window_seconds = seconds })

abbrev pub Counters : Type 0
Counters = List (ℕ × ℕ)

pub record ReserveResult : Type 0 where
  pub allowed : Bool
  pub current : ℕ
  pub ceiling : ℕ

abbrev pub count_of : Option ℕ → ℕ
count_of none = 0
count_of (some n) = n

module _ (opts : RetryBudgetOptions) where
  -- Math.floor(now / 1000 / windowSeconds)
  abbrev pub window_of : ℕ → ℕ
  window_of now_ms = now_ms / 1000 / opts.window_seconds

  unfoldable pub try_reserve : ℕ → Counters → Counters × ReserveResult
  try_reserve now_ms redis =
      let w = window_of now_ms in
      let current = count_of (map_get w redis) + 1 in
      (
        map_set w current redis,
        record {
          allowed = leb current opts.max_per_window;
          current = current;
          ceiling = opts.max_per_window;
        },
      )

  unfoldable pub current_usage : ℕ → Counters → ℕ × ℕ
  current_usage now_ms redis = (count_of (map_get (window_of now_ms) redis), opts.max_per_window)

  -- The calls of all workers, one after another, at the times of their clocks: which were allowed.
  unfoldable pub allowed_times : List ℕ → Counters → List ℕ
  allowed_times [] redis = []
  allowed_times (now_ms ∷ times) redis =
      let (redis', result) = try_reserve now_ms redis in
      let rest = allowed_times times redis' in if result.allowed then now_ms ∷ rest else rest

  abbrev pub in_window : ℕ → List ℕ → List ℕ
  in_window w = keep (λ now_ms. window_of now_ms == w)

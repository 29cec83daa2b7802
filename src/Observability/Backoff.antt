-- ===== src/Observability/Backoff.antt =====
-- LoopBackoff of packages/observability/src/loop-backoff.ts. Delays are whole milliseconds; the
-- jitter ratio is its whole number of thousandths, and the random offset is given by what is added to
-- it: a number of 0 to twice the ratio.
use native.Mathlib.Nat.{pow-suc}
use vigil_apex_f.Common.{
  ℕ, zero, suc, ◌+◌, ◌-◌, ◌*◌, ◌/◌, ◌^◌, ◌≤◌, ◌≡◌, refl, min, Option, none, some, List, [], ◌∷◌,
  ◌++◌, ◌==◌, leb, if◌then◌else◌, arith,
}

pub record LoopBackoffOptions : Type 0 where
  pub initial_ms : ℕ
  pub cap_ms : ℕ
  pub jitter_bp : ℕ

-- The constructor's checks.
unfoldable pub make : LoopBackoffOptions → Option LoopBackoffOptions
make opts = if leb opts.cap_ms 0 then none else if leb 1000 opts.jitter_bp then none else some opts

pub data Event : Type 0 where
  success error : Event

-- onSuccess and onError, on the count of consecutive failures
abbrev pub step : ℕ → Event → ℕ
step failures success = 0
step failures error = failures + 1

abbrev pub run : ℕ → List Event → ℕ
run failures [] = failures
run failures (e ∷ es) = run (step failures e) es

-- nextDelayMs after `failures` failures; `draw` is the random offset, counted from `-ratio`.
abbrev pub delay_after : LoopBackoffOptions → ℕ → ℕ → ℕ
delay_after opts zero draw = opts.cap_ms
delay_after opts (suc failures) draw =
    let base = min (opts.initial_ms * 2 ^ failures) opts.cap_ms in
    if opts.jitter_bp == 0
    then base
    else min (base * (1000 + draw - opts.jitter_bp) / 1000) opts.cap_ms

unfoldable pub next_delay_ms : LoopBackoffOptions → List Event → ℕ → ℕ
next_delay_ms opts events draw = delay_after opts (run 0 events) draw

abbrev pub errors : ℕ → List Event
errors zero = []
errors (suc n) = error ∷ errors n

run-errors : (failures n : ℕ) → run failures (errors n) ≡ failures + n
run-errors failures zero = omega arith
run-errors failures (suc n) = omega (arith, run-errors (failures + 1) n)

run-success : (es : List Event) (failures n : ℕ) → run failures (es ++ success ∷ errors n) ≡ n
run-success [] failures n = omega (arith, run-errors 0 n)
run-success (e ∷ es) failures n = run-success es (step failures e) n

power_step : (a n : ℕ) → a * 2 ^ suc n ≡ 2 * (a * 2 ^ n)
power_step a n = rw (pow-suc 2 n) (grind arith)

-- Without jitter, after any events that end in a success and n further failures: with no failure the
-- delay is the cap, and with n of them it is the initial delay doubled n - 1 times, or the cap.
pub next_delay_ms-run :
    (opts : LoopBackoffOptions) (es : List Event) (n draw : ℕ)
    → opts.jitter_bp ≡ 0
    → (next_delay_ms opts (es ++ success ∷ errors 0) draw ≡ opts.cap_ms)
      × (next_delay_ms opts (es ++ success ∷ errors (suc n)) draw
          ≡ min (opts.initial_ms * 2 ^ n) opts.cap_ms)
      × (next_delay_ms opts (es ++ success ∷ errors (suc n)) draw
          ≤ next_delay_ms opts (es ++ success ∷ errors (suc (suc n))) draw)
unfolding next_delay_ms
next_delay_ms-run opts es n draw still =
    rw (run-success es 0 0, run-success es 0 (suc n), run-success es 0 (suc (suc n)), still)
      (refl, refl, omega (arith, power_step opts.initial_ms n))

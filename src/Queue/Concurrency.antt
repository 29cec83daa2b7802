-- ===== src/Queue/Concurrency.antt =====
-- The adaptive concurrency of WorkerBase: recordOutcome, effectiveConcurrency and isHealthy of
-- packages/queue/src/worker.ts. Times are milliseconds. `scale` is the floating-point expression
-- `Math.floor(cfg * Math.max(0.1, 1 - errs / count))`.
use vigil_apex_f.Common.{
  ℕ, ◌+◌, ◌*◌, ◌≤◌, ◌<◌, ◌≡◌, refl, max, Bool, true, false, not, Option, none, some, List, [], ◌∷◌,
  ◌++◌, All, ltb, leb, ◌==◌, if◌then◌else◌, keep, length, length-append, arith, lt→ltb, Bool-cases,
  inl, inr,
}
use vigil_apex_f.Queue.{Envelope, HandlerOutcome, ack}

pub record Outcome : Type 0 where
  pub at : ℕ
  pub ok : Bool

pub record Load : Type 0 where
  pub error_window : List Outcome
  pub circuit_open_until : ℕ

abbrev pub error_window_ms : ℕ
error_window_ms = 60000

abbrev pub shift : List Outcome → List Outcome
shift [] = []
shift (o ∷ os) = os

-- push, then `shift()` above 200 entries
unfoldable pub record_outcome : ℕ → Bool → Load → Load
record_outcome now ok load =
    let window = load.error_window ++ record { at = now; ok = ok } ∷ [] in
    record load { error_window = if ltb 200 (length window) then shift window else window }

abbrev pub is_ack : HandlerOutcome → Bool
is_ack ack = true
is_ack _ = false

-- What `process` records: nothing for a body that does not parse or a duplicate, and otherwise whether
-- the handler acknowledged.
unfoldable pub load_after : ℕ → (Envelope → HandlerOutcome) → Option Envelope → Load → Load
load_after now handle none load = load
load_after now handle (some e) load = record_outcome now (is_ack (handle e)) load

-- `while (now - errorWindow[0].at > errorWindowMs) errorWindow.shift()`
abbrev pub drop_old : ℕ → List Outcome → List Outcome
drop_old now [] = []
drop_old now (o ∷ os) =
    let rest = drop_old now os in if ltb (o.at + error_window_ms) now then rest else o ∷ os

abbrev pub errors : List Outcome → ℕ
errors window = length (keep (λ o. not o.ok) window)

module _ (scale : ℕ → ℕ → ℕ → ℕ) where
  -- What follows the clean-up; `errorRate >= 0.9` is `9 count ≤ 10 errs`.
  abbrev pub choose : ℕ → ℕ → List Outcome → Load → Load × ℕ
  choose cfg now [] load = (load, cfg)
  choose cfg now (o ∷ os) load =
      let errs = errors (o ∷ os) in
      let count = length (o ∷ os) in
      if ltb now load.circuit_open_until
      then (load, 1)
      else if leb (9 * count) (10 * errs)
      then (record load { circuit_open_until = now + 60000 }, 1)
      else (load, max 1 (scale cfg errs count))

  unfoldable pub effective_concurrency : ℕ → ℕ → Load → Load × ℕ
  effective_concurrency cfg now load =
      let window = drop_old now load.error_window in
      choose cfg now window (record load { error_window = window })

  length-keep : (f : Outcome → Bool) (os : List Outcome) → length (keep f os) ≤ length os
  length-keep f [] = omega arith
  length-keep f (o ∷ os) = elim (Bool-cases (f o)) [
    | inl on ↦ rw on (omega (arith, length-keep f os))
    | inr off ↦ rw off (omega (arith, length-keep f os))
  ]

  choose_bounds :
      (cfg now : ℕ) (window : List Outcome) (load : Load)
      → ((errs count : ℕ) → errs ≤ count → scale cfg errs count ≤ cfg)
      → 1 ≤ cfg
      → let (after, slots) = choose cfg now window load in (1 ≤ slots) × (slots ≤ cfg)
  choose_bounds cfg now [] load small one = (one, omega arith)
  choose_bounds cfg now (o ∷ os) load small one =
      let fits = small (errors (o ∷ os)) (length (o ∷ os)) (length-keep (λ o. not o.ok) (o ∷ os)) in
      elim (Bool-cases (ltb now load.circuit_open_until)) [
        | inl tripped ↦ rw tripped (omega arith, one)
        | inr closed ↦ elim (Bool-cases (leb (9 * length (o ∷ os)) (10 * errors (o ∷ os)))) [
          | inl bad ↦ rw (closed, bad) (omega arith, one)
          | inr good ↦ rw (closed, good) (omega arith, omega (arith, fits, one))
        ]
      ]

  -- The worker never starves and never exceeds its configured ceiling.
  pub effective_concurrency_bounds :
      (cfg now : ℕ) (load : Load)
      → ((errs count : ℕ) → errs ≤ count → scale cfg errs count ≤ cfg)
      → 1 ≤ cfg
      → let slots = (effective_concurrency cfg now load).1 in (1 ≤ slots) × (slots ≤ cfg)
  unfolding effective_concurrency
  effective_concurrency_bounds cfg now load small one =
      choose_bounds cfg now (drop_old now load.error_window)
        (record load { error_window = drop_old now load.error_window }) small one

  drop_old_empty :
      (now : ℕ) (os : List Outcome)
      → All (λ o. o.at + error_window_ms < now) os
      → drop_old now os ≡ []
  drop_old_empty now [] h = refl
  drop_old_empty now (o ∷ os) (h, hs) =
      rw (lt→ltb (o.at + error_window_ms) now h) (drop_old_empty now os hs)

  -- When every outcome is older than the window, the worker is back at its ceiling, with an empty
  -- window, whatever the errors were and even while the circuit is open.
  pub effective_concurrency_recovers :
      (cfg now : ℕ) (load : Load)
      → All (λ o. o.at + error_window_ms < now) load.error_window
      → effective_concurrency cfg now load ≡ (record load { error_window = [] }, cfg)
  unfolding effective_concurrency
  effective_concurrency_recovers cfg now load old =
      rw (drop_old_empty now load.error_window old) refl

-- The window never holds more than 200 outcomes.
record_outcome_bound :
    (now : ℕ) (ok : Bool) (load : Load)
    → length load.error_window ≤ 200
    → length (record_outcome now ok load).error_window ≤ 200
unfolding record_outcome
record_outcome_bound now ok load h =
    go (load.error_window ++ record { at = now; ok = ok } ∷ [])
      (omega (arith, h, length-append load.error_window (record { at = now; ok = ok } ∷ [])))
  where
    go :
        (os : List Outcome)
        → length os ≤ 201
        → length (if ltb 200 (length os) then shift os else os) ≤ 200
    go [] le = ground arith
    go (o ∷ os) le = ground (arith, le)

pub load_after_bound :
    (now : ℕ) (handle : Envelope → HandlerOutcome) (claimed : Option Envelope) (load : Load)
    → length load.error_window ≤ 200
    → length (load_after now handle claimed load).error_window ≤ 200
unfolding load_after
load_after_bound now handle none load h = h
load_after_bound now handle (some e) load h = record_outcome_bound now (is_ack (handle e)) load h

pub record Ticks : Type 0 where
  pub running : Bool
  pub last_tick_at_ms : ℕ

-- isHealthy; `now - lastTickAtMs <= blockMs * 2` as an inequality of integers
unfoldable pub is_healthy : ℕ → ℕ → Ticks → Bool
is_healthy block_ms now ticks =
    if ticks.running
    then (if ticks.last_tick_at_ms == 0
        then true
        else leb now (block_ms * 2 + ticks.last_tick_at_ms))
    else false

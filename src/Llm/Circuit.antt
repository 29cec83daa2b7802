-- ===== src/Llm/Circuit.antt =====
-- CircuitBreaker of packages/llm/src/circuit.ts. Times are the milliseconds of `Date.now()`.
use vigil_apex_f.Common.{
  ℕ, ◌+◌, ◌≤◌, ◌<◌, ◌≡◌, refl, Bool, true, false, Option, none, some, List, [], ◌∷◌, ◌++◌, ltb, leb,
  le→leb, lt→leb_false, lt→ltb, if◌then◌else◌, length, All, arith, Bool-cases, inl, inr,
}

pub record CircuitOptions : Type 0 where
  pub failure_threshold : ℕ
  pub failure_window_ms : ℕ
  pub probe_interval_ms : ℕ
  pub latency_timeout_ms : Option ℕ

pub data State : Type 0 where
  closed opened half_open : State

pub record Circuit : Type 0 where
  pub state : State
  -- the times of the recent failures
  pub failures : List ℕ
  pub next_probe_at : ℕ

abbrev pub fresh : Circuit
fresh = record { state = closed; failures = []; next_probe_at = 0 }

abbrev pub asked_in : State → ℕ → Circuit → Circuit × Bool
asked_in closed now c = (c, false)
asked_in half_open now c = (c, false)
asked_in opened now c =
    if leb c.next_probe_at now then (record c { state = half_open }, false) else (c, true)

-- isOpen
unfoldable pub is_open : ℕ → Circuit → Circuit × Bool
is_open now c = asked_in c.state now c

-- recordSuccess
unfoldable pub record_success : Circuit → Circuit
record_success c = record c { state = closed; failures = [] }

-- `while (failures[0] < now - failureWindowMs) failures.shift()`
abbrev pub drop_old : ℕ → ℕ → List ℕ → List ℕ
drop_old window now [] = []
drop_old window now (f ∷ fs) =
    let rest = drop_old window now fs in if ltb (f + window) now then rest else f ∷ fs

module _ (opts : CircuitOptions) where
  -- recordFailure, and recordTimeout, which calls it
  unfoldable pub record_failure : ℕ → Circuit → Circuit
  record_failure now c =
      let failures = drop_old opts.failure_window_ms now (c.failures ++ now ∷ []) in
      if leb opts.failure_threshold (length failures)
      then record {
        state = opened;
        failures = failures;
        next_probe_at = now + opts.probe_interval_ms;
      }
      else record c { failures = failures }

  -- isLatencyExceeded
  unfoldable pub is_latency_exceeded : ℕ → Bool
  is_latency_exceeded latency_ms = elim opts.latency_timeout_ms [
    | none ↦ false
    | some limit ↦ ltb limit latency_ms
  ]

  pub data Event : Type 0 where
    ask success failure : ℕ → Event

  unfoldable pub happen : Event → Circuit → Circuit
  happen (ask now) c = (is_open now c).0
  happen (success now) c = record_success c
  happen (failure now) c = record_failure now c

  unfoldable pub run : List Event → Circuit → Circuit
  unfolding happen
  run [] c = c
  run (e ∷ es) c = run es (happen e c)

  -- A closed breaker has seen fewer failures in its window than the threshold.
  abbrev pub IsTame : Circuit → Type 0
  IsTame c = c.state ≡ closed → length c.failures < opts.failure_threshold

  happen-IsTame :
      (e : Event) (c : Circuit) → 1 ≤ opts.failure_threshold → IsTame c → IsTame (happen e c)
  unfolding happen is_open record_success record_failure
  happen-IsTame (ask now) c one tame = go c.state refl
    where
      go : (s : State) → c.state ≡ s → IsTame (asked_in c.state now c).0
      go closed e = rw e (λ q. tame e)
      go half_open e = rw e (λ q. cc q)
      go opened e = elim (Bool-cases (leb c.next_probe_at now)) [
        | inl due ↦ rw (e, due) (λ q. cc q)
        | inr early ↦ rw (e, early) (λ q. cc q)
      ]
  happen-IsTame (success now) c one tame = λ q. one
  happen-IsTame (failure now) c one tame =
      elim (Bool-cases (
        leb opts.failure_threshold
          (length (drop_old opts.failure_window_ms now (c.failures ++ now ∷ []))))) [
            | inl many ↦ rw many (λ q. cc q)
            | inr few ↦ rw few (λ q. ground (arith, few))
          ]

  -- After any events, a breaker that is closed has fewer failures in its window than the threshold.
  pub run-IsTame :
      (es : List Event) (c : Circuit) → 1 ≤ opts.failure_threshold → IsTame c → IsTame (run es c)
  unfolding run
  run-IsTame [] c one tame = tame
  run-IsTame (e ∷ es) c one tame = run-IsTame es (happen e c) one (happen-IsTame e c one tame)

  drop_old-last :
      (now : ℕ) (fs : List ℕ)
      → drop_old opts.failure_window_ms now (fs ++ now ∷ [])
        ≡ drop_old opts.failure_window_ms now fs ++ now ∷ []
  drop_old-last now [] = ground arith
  drop_old-last now (f ∷ fs) = elim (Bool-cases (ltb (f + opts.failure_window_ms) now)) [
    | inl old ↦ rw old (drop_old-last now fs)
    | inr recent ↦ rw recent refl
  ]

  -- All the failures are older than the window.
  abbrev pub IsStale : ℕ → List ℕ → Type 0
  IsStale now = All (λ f. f + opts.failure_window_ms < now)

  drop_old-IsStale :
      (now : ℕ) (fs : List ℕ) → IsStale now fs → drop_old opts.failure_window_ms now fs ≡ []
  drop_old-IsStale now [] h = refl
  drop_old-IsStale now (f ∷ fs) (h, hs) =
      rw (lt→ltb (f + opts.failure_window_ms) now h) (drop_old-IsStale now fs hs)

  abbrev pub asks : List ℕ → Circuit → List Bool
  asks [] c = []
  asks (now ∷ times) c = let (c', answer) = is_open now c in answer ∷ asks times c'

  half_open-asks :
      (times : List ℕ) (c : Circuit) → c.state ≡ half_open → All (λ a. a ≡ false) (asks times c)
  unfolding is_open
  half_open-asks [] c h = tt
  half_open-asks (now ∷ times) c h =
      rw h (refl, half_open-asks times (record c { state = half_open }) refl)

  -- Once the probe time has come, an open breaker lets every caller through until an outcome is
  -- recorded, and not one trial only; and when the threshold is above 1 and the failures it saw are
  -- older than the window, a failure of the trial does not open it again: every caller still gets
  -- through.
  pub asks-after_probe :
      (now late : ℕ) (times : List ℕ) (c : Circuit)
      → c.state ≡ opened
      → c.next_probe_at ≤ now
      → 2 ≤ opts.failure_threshold
      → IsStale late c.failures
      → All (λ a. a ≡ false) (asks (now ∷ times) c)
        × All (λ a. a ≡ false) (asks times (record_failure late (is_open now c).0))
  unfolding is_open record_failure
  asks-after_probe now late times c h due two stale =
      let last = drop_old-last late c.failures in
      let none_left = drop_old-IsStale late c.failures stale in
      let few : leb opts.failure_threshold 1 ≡ false =
        lt→leb_false opts.failure_threshold 1 (omega (arith, two)) in
      rw (h, le→leb c.next_probe_at now due)
        (
          (refl, half_open-asks times (record c { state = half_open }) refl),
          rw (last, none_left, few)
              (half_open-asks times (record c { state = half_open; failures = late ∷ [] }) refl),
        )

  -- A failure that fills the window opens the breaker: every caller is refused until the probe time.
  pub record_failure-trips :
      (now : ℕ) (c : Circuit)
      → opts.failure_threshold
        ≤ length (drop_old opts.failure_window_ms now (c.failures ++ now ∷ []))
      → (times : List ℕ) → All (λ t. t < now + opts.probe_interval_ms) times
      → All (λ a. a ≡ true) (asks times (record_failure now c))
  unfolding record_failure is_open
  record_failure-trips now c many times early =
      rw (le→leb opts.failure_threshold _ many) (refused times early)
    where
      after : Circuit
      after = record {
        state = opened;
        failures = drop_old opts.failure_window_ms now (c.failures ++ now ∷ []);
        next_probe_at = now + opts.probe_interval_ms;
      }

      refused :
          (times : List ℕ)
          → All (λ t. t < now + opts.probe_interval_ms) times
          → All (λ a. a ≡ true) (asks times after)
      refused [] h = tt
      refused (t ∷ times) (h, hs) =
          rw (lt→leb_false (now + opts.probe_interval_ms) t h) (refl, refused times hs)

-- ===== src/Queue.antt =====
-- packages/queue/src/worker.ts, WorkerBase: what becomes of a message of a stream. The stream is the
-- function that gives the body of each message id; Redis keeps the group's pending ids, the dedup
-- locks and the dead-letter stream.
pub mod Removal
pub mod Settled
pub mod Lost
pub mod Processed
pub mod Reach
pub mod Concurrency
pub mod Keeps
mod Tests
use vigil_apex_f.Common.{
  ℕ, ◌≡◌, Bool, true, false, not, Option, none, some, List, [], ◌∷◌, ◌++◌, Text, codes, ◌==◌,
  if◌then◌else◌, text_eq, keep, any, Any,
}
use vigil_apex_f.AuditChain.Json.{Json}

pub record Envelope : Type 0 where
  pub id : Text
  pub dedup_key : Text
  pub correlation_id : Text
  pub producer : Text
  pub produced_at : Text
  pub schema_version : ℕ
  pub payload : Json

-- What `handle` returns, or the message of what it throws.
pub data HandlerOutcome : Type 0 where
  ack : HandlerOutcome
  retry : Text → HandlerOutcome
  dead_letter : Text → HandlerOutcome
  threw : Text → HandlerOutcome

-- The payload of a dead-letter envelope.
pub record DeadLetter : Type 0 where
  pub original_redis_id : ℕ
  pub original_body : Text
  pub reason : Text

pub record StreamState : Type 0 where
  -- the ids that were added to the stream
  pub published : List ℕ
  -- delivered to the group and not acknowledged
  pub pending : List ℕ
  -- the dedup keys that are locked
  pub dedup : List Text
  -- the ids whose handler runs
  pub flights : List ℕ
  pub dead : List DeadLetter
  -- the dedup keys whose handler returned `ack`
  pub done : List Text

abbrev pub remove : ℕ → List ℕ → List ℕ
remove n = keep (λ m. not (m == n))

-- DEL of a dedup key
abbrev pub unlock : Text → List Text → List Text
unlock key = keep (λ k. not (text_eq k key))

abbrev pub is_locked : Text → StreamState → Bool
is_locked key q = any (λ k. text_eq k key) q.dedup

-- XACK
abbrev pub xack : ℕ → StreamState → StreamState
xack i q = record q { pending = remove i q.pending }

-- the handler of `i` has returned
abbrev pub land : ℕ → StreamState → StreamState
land i q = record q { flights = remove i q.flights }

abbrev pub Has : ℕ → List ℕ → Type 0
Has n = Any (λ m. m ≡ n)

module _ (stream : ℕ → Text) (parse : Text → Option Envelope) where
  unfoldable pub dead_letter_and_ack : ℕ → Text → StreamState → StreamState
  dead_letter_and_ack i reason q = xack i (record q {
    dead = record { original_redis_id = i; original_body = stream i; reason = reason } ∷ q.dead;
  })

  -- DEDUP_AND_ACK_LUA: set the lock, or acknowledge a duplicate.
  abbrev pub dedup_and_ack : ℕ → Envelope → StreamState → StreamState × Option Envelope
  dedup_and_ack i e q =
      if is_locked e.dedup_key q
      then (xack i q, none)
      else (record q { dedup = e.dedup_key ∷ q.dedup; flights = i ∷ q.flights }, some e)

  -- `process` up to the call of `handle`; an envelope says that the handler is called with it.
  abbrev pub after_parse : ℕ → Option Envelope → StreamState → StreamState × Option Envelope
  after_parse i none q = (dead_letter_and_ack i (codes "envelope-parse-failed") q, none)
  after_parse i (some e) q = dedup_and_ack i e q

  unfoldable pub claim : ℕ → StreamState → StreamState × Option Envelope
  claim i q = after_parse i (parse (stream i)) q

  -- `process` from the return of `handle` on. `allowed` is the answer of the retry budget.
  unfoldable pub settle : ℕ → Envelope → HandlerOutcome → Bool → StreamState → StreamState
  unfolding dead_letter_and_ack
  settle i e ack allowed q = xack i (record (land i q) { done = e.dedup_key ∷ q.done })
  settle i e (retry reason) allowed q =
      if allowed
      then record (land i q) { dedup = unlock e.dedup_key q.dedup }
      else dead_letter_and_ack i (codes "retry-budget-exhausted: " ++ reason) (land i q)
  settle i e (dead_letter reason) allowed q = dead_letter_and_ack i reason (land i q)
  settle i e (threw message) allowed q = dead_letter_and_ack i message (land i q)

  abbrev pub settle_claimed :
      ℕ → (Envelope → HandlerOutcome) → Bool → StreamState × Option Envelope → StreamState
  settle_claimed i handle allowed (q, none) = q
  settle_claimed i handle allowed (q, some e) = settle i e (handle e) allowed q

  -- The whole of `process`, when nothing comes in between.
  unfoldable pub process : ℕ → (Envelope → HandlerOutcome) → Bool → StreamState → StreamState
  unfolding claim settle
  process i handle allowed q = settle_claimed i handle allowed (claim i q)

  -- The interleaved runs of the workers of one group.
  pub data Step : StreamState → StreamState → Type 0 where
    -- a producer adds a message, and a read delivers it to the group
    publish :
        {q : StreamState} (i : ℕ)
        → Step q (record q { published = i ∷ q.published; pending = i ∷ q.pending })
    -- a worker starts to process a pending message that no worker is processing
    start :
        {q : StreamState} (i : ℕ) → Has i q.pending → (Has i q.flights → ⊥) → Step q (claim i q).0
    -- the handler of a message returns
    finish :
        {q : StreamState} (i : ℕ) (e : Envelope) (outcome : HandlerOutcome) (allowed : Bool)
        → Has i q.flights
        → parse (stream i) ≡ some e
        → Step q (settle i e outcome allowed q)
    -- a lock is older than a day
    expire : {q : StreamState} (key : Text) → Step q (record q { dedup = unlock key q.dedup })

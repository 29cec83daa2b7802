-- ===== src/Queue/Tests.antt =====
-- The theorems about the worker at concrete streams and states.
use vigil_apex_f.Common.{
  ℕ, ◌-◌, ◌*◌, ◌/◌, ◌≡◌, refl, inl, true, false, Option, none, some, [], ◌∷◌, Text, codes, min, max,
}
use vigil_apex_f.AuditChain.Json.{str}
use vigil_apex_f.Queue.{Envelope, ack, retry, StreamState, publish, start, finish, claim, settle}
use vigil_apex_f.Queue.Reach.{Reachable, begin, next, empty_stream, Reachable-IsSafe}
use vigil_apex_f.Queue.Keeps.{IsSafe}
use vigil_apex_f.Queue.Lost.{IsDropped, crash, claim-crash, settle-claim_again}
use vigil_apex_f.Queue.Concurrency.{Load}

abbrev stream : ℕ → Text
stream i = codes "key"

abbrev envelope_of : Text → Envelope
envelope_of key = record {
  id = codes "e";
  dedup_key = key;
  correlation_id = codes "c";
  producer = codes "adapter";
  produced_at = codes "2026-05-16";
  schema_version = 1;
  payload = str [];
}

-- The body is the dedup key.
abbrev parse : Text → Option Envelope
parse [] = none
parse (c ∷ t) = some (envelope_of (c ∷ t))

abbrev envelope : Envelope
envelope = envelope_of (codes "key")

abbrev waiting : StreamState
waiting = record empty_stream { published = 1 ∷ []; pending = 1 ∷ [] }

abbrev served : StreamState
served = settle stream parse 1 envelope ack true (claim stream parse 1 waiting).0

served-Reachable : Reachable stream parse served
unfolding claim
served-Reachable =
    next (next (next begin (publish 1)) (start 1 (inl refl) (elim [ ])))
      (finish 1 envelope ack true (inl refl) refl)

Reachable-IsSafe_example : IsSafe stream parse served 1
unfolding claim settle
Reachable-IsSafe_example = Reachable-IsSafe stream parse served served-Reachable 1 (inl refl)

claim-crash_example :
    ((claim stream parse 1 (crash 1 (claim stream parse 1 waiting).0)).1 ≡ none)
    × IsDropped 1 waiting (claim stream parse 1 (crash 1 (claim stream parse 1 waiting).0)).0
claim-crash_example = claim-crash stream parse 1 envelope waiting refl refl

settle-claim_again_example : IsDropped 1 waiting (
    settle stream parse 1 envelope
      (retry (codes "busy"))
      true
      (claim stream parse 1 (claim stream parse 1 waiting).0).0)
settle-claim_again_example =
    settle-claim_again stream parse 1 envelope (codes "busy") waiting refl refl

-- The ceiling scaled by the share of successes or by a tenth, in exact arithmetic.
abbrev exact_scale : ℕ → ℕ → ℕ → ℕ
exact_scale cfg errs count = min cfg ((cfg * max count (10 * (count - errs))) / (10 * count))

abbrev busy : Load
busy = record {
  error_window = record { at = 5; ok = false } ∷ record { at = 7; ok = true } ∷ [];
  circuit_open_until = 0;
}

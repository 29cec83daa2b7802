-- ===== src/Queue/Reach.antt =====
-- The states of the stream that runs of the workers lead to.
use vigil_apex_f.Common.{ℕ, ◌≡◌, ◌⊎◌, inl, inr, subst, Option, [], Text, Any}
use vigil_apex_f.Queue.{Envelope, StreamState, Has, Step}
use vigil_apex_f.Queue.Removal.{HasKey}
use vigil_apex_f.Queue.Keeps.{Keyed, LetterKeyed, IsLetterOf, IsSafe, Keeps}
use vigil_apex_f.Queue.Settled.{Step-IsKept}

abbrev pub empty_stream : StreamState
empty_stream = record {
  published = [];
  pending = [];
  dedup = [];
  flights = [];
  dead = [];
  done = [];
}

module _ (stream : ℕ → Text) (parse : Text → Option Envelope) where
  pub data Reachable : StreamState → Type 0 where
    begin : Reachable empty_stream
    next : {q r : StreamState} → Reachable q → Step stream parse q r → Reachable r

  empty_stream-IsKept : Keeps stream parse empty_stream
  empty_stream-IsKept = record {
    safe = λ i h. elim h [ ];
    locks = λ k h. elim h [ ];
    flying = λ i h. elim h [ ];
  }

  Reachable-IsKept : (q : StreamState) → Reachable q → Keeps stream parse q
  Reachable-IsKept q begin = empty_stream-IsKept
  Reachable-IsKept q (next {q = o} run step) =
      Step-IsKept stream parse o q step (Reachable-IsKept o run)

  -- However the workers of a group interleave, as long as none dies inside `process` and no message is
  -- taken over while its handler runs: a message of the stream is pending, or is a dead letter, or has
  -- a dedup key whose work is done, is a dead letter, or is pending with another message.
  pub Reachable-IsSafe :
      (q : StreamState) → Reachable q → (i : ℕ) → Has i q.published → IsSafe stream parse q i
  Reachable-IsSafe q run = (Reachable-IsKept q run).safe

  -- When nothing is pending any more, the handler has acknowledged the key of each message, or the
  -- message, or one with its key, is a dead letter.
  pub Reachable-drained :
      (q : StreamState)
      → Reachable q
      → q.pending ≡ []
      → (i : ℕ) → Has i q.published
      → Any (IsLetterOf stream parse i) q.dead
        ⊎ ((k : Text) × Keyed stream parse k i
            × (HasKey k q.done ⊎ Any (LetterKeyed stream parse k) q.dead))
  Reachable-drained q run drained i here = go (Reachable-IsSafe q run i here)
    where
      nothing : (P : ℕ → Type 0) → Any P q.pending → ⊥
      nothing P h = elim (subst (Any P) drained h) [ ]

      go :
          IsSafe stream parse q i
          → Any (IsLetterOf stream parse i) q.dead
            ⊎ ((k : Text) × Keyed stream parse k i
                × (HasKey k q.done ⊎ Any (LetterKeyed stream parse k) q.dead))
      go (inl h) = absurd (nothing (λ m. m ≡ i) h)
      go (inr (inl letter)) = inl letter
      go (inr (inr (k, keyed, inl x))) = inr (k, keyed, inl x)
      go (inr (inr (k, keyed, inr (inl x)))) = inr (k, keyed, inr x)
      go (inr (inr (k, keyed, inr (inr x)))) = absurd (nothing (Keyed stream parse k) x)

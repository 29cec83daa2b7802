-- ===== src/Queue/Lost.antt =====
-- WorkerBase.process when a worker dies while the handler runs, and when a message is delivered again
-- while the handler runs.
use vigil_apex_f.Common.{ℕ, ◌≡◌, refl, true, false, Option, none, some, ◌∷◌, Text, text_eq_refl}
use vigil_apex_f.Queue.{Envelope, retry, StreamState, remove, is_locked, xack, land, claim, settle}

-- The worker is gone, and what it held in Redis stays: the pending id and the lock.
abbrev pub crash : ℕ → StreamState → StreamState
crash = land

-- Neither pending nor a dead letter nor done through this run.
pub record IsDropped (i : ℕ) (before after : StreamState) : Type 0 where
  pub acknowledged : after.pending ≡ remove i before.pending
  pub no_letter : after.dead ≡ before.dead
  pub not_done : after.done ≡ before.done

module _ (stream : ℕ → Text) (parse : Text → Option Envelope) where
  claim-first :
      (i : ℕ) (e : Envelope) (q : StreamState)
      → parse (stream i) ≡ some e
      → is_locked e.dedup_key q ≡ false
      → claim stream parse i q
        ≡ (record q { dedup = e.dedup_key ∷ q.dedup; flights = i ∷ q.flights }, some e)
  unfolding claim
  claim-first i e q p free = rw (p, free) refl

  claim-again :
      (i : ℕ) (e : Envelope) (q : StreamState)
      → parse (stream i) ≡ some e
      → is_locked e.dedup_key q ≡ true
      → claim stream parse i q ≡ (xack i q, none)
  unfolding claim
  claim-again i e q p locked = rw (p, locked) refl

  -- The next delivery after a crash finds the lock of the dead worker and acknowledges the message.
  pub claim-crash :
      (i : ℕ) (e : Envelope) (q : StreamState)
      → parse (stream i) ≡ some e
      → is_locked e.dedup_key q ≡ false
      → let again = claim stream parse i (crash i (claim stream parse i q).0) in
        (again.1 ≡ none) × IsDropped i q again.0
  claim-crash i e q p free =
      let lock : is_locked e.dedup_key
            (crash i (record q { dedup = e.dedup_key ∷ q.dedup; flights = i ∷ q.flights }))
          ≡ true =
        rw (text_eq_refl e.dedup_key) refl in
      rw
        (
          claim-first i e q p free,
          claim-again i e
              (crash i (record q { dedup = e.dedup_key ∷ q.dedup; flights = i ∷ q.flights })) p
              lock,
        )
        (refl, record { acknowledged = refl; no_letter = refl; not_done = refl })

  -- A second delivery while the handler runs acknowledges the message; a retry then releases the lock
  -- of a message that is not pending any more.
  pub settle-claim_again :
      (i : ℕ) (e : Envelope) (reason : Text) (q : StreamState)
      → parse (stream i) ≡ some e
      → is_locked e.dedup_key q ≡ false
      → let taken = (claim stream parse i (claim stream parse i q).0).0 in
        IsDropped i q (settle stream parse i e (retry reason) true taken)
  unfolding settle
  settle-claim_again i e reason q p free =
      let lock : is_locked e.dedup_key
            (record q { dedup = e.dedup_key ∷ q.dedup; flights = i ∷ q.flights })
          ≡ true =
        rw (text_eq_refl e.dedup_key) refl in
      rw
        (
          claim-first i e q p free,
          claim-again i e (record q { dedup = e.dedup_key ∷ q.dedup; flights = i ∷ q.flights }) p
              lock,
        )
        (record { acknowledged = refl; no_letter = refl; not_done = refl })

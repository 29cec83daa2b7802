-- ===== src/Queue/Processed.antt =====
-- One whole call of `process`: when the message stays pending.
use vigil_apex_f.Common.{
  ℕ, ◌≡◌, ◌↔◌, refl, inl, inr, Bool, true, false, Option, none, some, List, ◌∷◌, Text, Bool-cases,
}
use vigil_apex_f.Queue.{
  Envelope, HandlerOutcome, ack, retry, dead_letter, threw, StreamState, is_locked, xack, land,
  dead_letter_and_ack, claim, after_parse, settle, settle_claimed, process, Has,
}
use vigil_apex_f.Queue.Removal.{Has-remove}

module _ (stream : ℕ → Text) (parse : Text → Option Envelope) where
  -- The message waits for another delivery: its handler ran, asked for a retry, and had the budget.
  pub record IsRetried (i : ℕ) (handle : Envelope → HandlerOutcome) (allowed : Bool)
      (q : StreamState) : Type 0 where
    pub envelope : Envelope
    pub parsed : parse (stream i) ≡ some envelope
    pub free : is_locked envelope.dedup_key q ≡ false
    pub reason : Text
    pub outcome : handle envelope ≡ retry reason
    pub budget : allowed ≡ true

  gone : (i : ℕ) (xs : List ℕ) → Has i (vigil_apex_f.Queue.remove i xs) → ⊥
  gone i xs h = (Has-remove i i xs h).0 refl

  settle-Has :
      (i : ℕ) (e : Envelope) (outcome : HandlerOutcome) (allowed : Bool) (q : StreamState)
      → Has i (settle stream parse i e outcome allowed q).pending
      → (reason : Text) × (outcome ≡ retry reason) × (allowed ≡ true)
  unfolding settle dead_letter_and_ack
  settle-Has i e ack allowed q h = absurd (gone i q.pending h)
  settle-Has i e (retry reason) true q h = (reason, refl, refl)
  settle-Has i e (retry reason) false q h = absurd (gone i q.pending h)
  settle-Has i e (dead_letter reason) allowed q h = absurd (gone i q.pending h)
  settle-Has i e (threw message) allowed q h = absurd (gone i q.pending h)

  -- A pending message is still pending after `process` exactly when its body parses, its key was not
  -- locked, its handler asked for a retry and the retry budget allowed it. In every other case it is
  -- acknowledged.
  pub process_pending_iff :
      (i : ℕ) (handle : Envelope → HandlerOutcome) (allowed : Bool) (q : StreamState)
      → Has i q.pending
      → Has i (process stream parse i handle allowed q).pending ↔ IsRetried i handle allowed q
  unfolding process claim dead_letter_and_ack
  process_pending_iff i handle allowed q here = (there (parse (stream i)) refl, back)
    where
      there :
          (o : Option Envelope)
          → parse (stream i) ≡ o
          → Has i
              (settle_claimed stream parse i handle allowed
                (after_parse stream parse i o q)).pending
          → IsRetried i handle allowed q
      there none p h = absurd (gone i q.pending h)
      there (some e) p h = elim (Bool-cases (is_locked e.dedup_key q)) [
        | inl locked ↦ absurd (gone i q.pending (rw locked at h))
        | inr free ↦
            let (reason, asked, budget) =
              settle-Has i e (handle e) allowed
                (record q { dedup = e.dedup_key ∷ q.dedup; flights = i ∷ q.flights })
                (rw free at h) in
            record {
              envelope = e;
              parsed = p;
              free = free;
              reason = reason;
              outcome = asked;
              budget = budget;
            }
      ]

      back :
          IsRetried i handle allowed q
          → Has i
              (settle_claimed stream parse i handle allowed
                (after_parse stream parse i (parse (stream i)) q)).pending
      back r = rw (r.parsed, r.free, r.outcome, r.budget) (unfold settle in here)

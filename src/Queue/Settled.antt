-- ===== src/Queue/Settled.antt =====
-- The steps of the workers and the invariant of the stream.
use vigil_apex_f.Common.{
  ℕ, ◌≡◌, refl, subst, ◌⊎◌, inl, inr, Bool, true, false, Option, none, some, ◌∷◌, ◌++◌, Text, codes,
  Bool-cases,
}
use vigil_apex_f.Queue.{
  Envelope, HandlerOutcome, ack, retry, dead_letter, threw, StreamState, remove, is_locked, xack,
  land, dead_letter_and_ack, after_parse, claim, settle, Has, Step, publish, start, finish, expire,
}
use vigil_apex_f.Queue.Removal.{Any-remove, Any-into, Has-remove, HasKey, HasKey-unlock, any-HasKey}
use vigil_apex_f.Queue.Keeps.{
  Keyed, Keyed-unique, IsCarried, IsGuarded, IsSafe, Keeps, Leaves-IsSafe, flying-remove,
  flying-apart,
}

module _ (stream : ℕ → Text) (parse : Text → Option Envelope) where
  abbrev IsKept : StreamState → Type 0
  IsKept = Keeps stream parse

  -- A message whose body does not parse, or whose handler gave it up; `q` is the state without its
  -- flight, and no lock of it is left unguarded.
  dead_letter_and_ack-IsKept :
      (i : ℕ) (reason : Text) (q : StreamState)
      → ((j : ℕ) → Has j q.published → IsSafe stream parse q j)
      → ((k : Text) → HasKey k q.dedup → Keyed stream parse k i ⊎ IsGuarded stream parse k q)
      → ((j : ℕ) → Has j q.flights → Has j (remove i q.pending))
      → IsKept (dead_letter_and_ack stream parse i reason q)
  unfolding dead_letter_and_ack
  dead_letter_and_ack-IsKept i reason q safe locks flying = record {
    safe = λ j h.
        Leaves-IsSafe stream parse i q (dead_letter_and_ack stream parse i reason q)
          (record {
            left = refl;
            done_more = λ k x. x;
            dead_more = λ P x. inr x;
            accounted = inl (inl refl);
          })
          j (safe j h);
    locks = λ k h. elim (locks k h) [
      | inl own ↦ inr (inl (inl own))
      | inr guarded ↦ elim guarded [
        | inl x ↦ inl x
        | inr y ↦ elim y [ inl z ↦ inr (inl (inr z)) | inr z ↦ inr (inr z) ]
      ]
    ];
    flying = flying;
  }

  after_parse-IsKept :
      (i : ℕ) (o : Option Envelope) (q : StreamState)
      → parse (stream i) ≡ o
      → IsKept q
      → Has i q.pending
      → (Has i q.flights → ⊥)
      → IsKept (after_parse stream parse i o q).0
  after_parse-IsKept i none q p keeps here idle =
      dead_letter_and_ack-IsKept i (codes "envelope-parse-failed") q keeps.safe
        (λ k h. inr (keeps.locks k h)) (flying-apart stream parse i q keeps idle)
  after_parse-IsKept i (some e) q p keeps here idle = elim (Bool-cases (is_locked e.dedup_key q)) [
    | inl locked ↦ rw locked (duplicate (any-HasKey e.dedup_key q.dedup locked))
    | inr free ↦ rw free first
  ]
    where
      apart : (j : ℕ) → Has j q.flights → Has j (remove i q.pending)
      apart = flying-apart stream parse i q keeps idle

      own : Keyed stream parse e.dedup_key i
      own = (e, p, refl)

      carried : IsGuarded stream parse e.dedup_key q → IsCarried stream parse e.dedup_key (xack i q)
      carried (inl x) = inl x
      carried (inr (inl x)) = inr (inl x)
      carried (inr (inr x)) =
          inr
            (inr (Any-into (Keyed stream parse e.dedup_key) q.flights (remove i q.pending) apart x))

      duplicate : HasKey e.dedup_key q.dedup → IsKept (xack i q)
      duplicate locked = record {
        safe = λ j h.
            Leaves-IsSafe stream parse i q (xack i q)
              (record {
                left = refl;
                done_more = λ k x. x;
                dead_more = λ P x. x;
                accounted = inr (e.dedup_key, own, carried (keeps.locks e.dedup_key locked));
              })
              j (keeps.safe j h);
        locks = keeps.locks;
        flying = apart;
      }

      first : IsKept (record q { dedup = e.dedup_key ∷ q.dedup; flights = i ∷ q.flights })
      first = record {
        safe = keeps.safe;
        locks = λ k h. elim h [
          | inl same ↦ inr (inr (inl (e, p, same)))
          | inr older ↦ elim (keeps.locks k older) [
            | inl x ↦ inl x
            | inr y ↦ elim y [ inl z ↦ inr (inl z) | inr z ↦ inr (inr (inr z)) ]
          ]
        ];
        flying = λ j h. elim h [
          | inl same ↦ subst (λ m. Has m q.pending) same here
          | inr older ↦ keeps.flying j older
        ];
      }

  -- A lock is the landing message's, or is guarded without it.
  locks-land :
      (i : ℕ) (q : StreamState)
      → IsKept q
      → (k : Text) → HasKey k q.dedup
      → Keyed stream parse k i ⊎ IsGuarded stream parse k (land i q)
  locks-land i q keeps k h = elim (keeps.locks k h) [
    | inl x ↦ inr (inl x)
    | inr y ↦ elim y [
      | inl z ↦ inr (inr (inl z))
      | inr z ↦ elim (Any-remove (Keyed stream parse k) i q.flights z) [
        | inl own ↦ inl own
        | inr rest ↦ inr (inr (inr rest))
      ]
    ]
  ]

  given_up-IsKept :
      (i : ℕ) (reason : Text) (q : StreamState)
      → IsKept q
      → IsKept (dead_letter_and_ack stream parse i reason (land i q))
  given_up-IsKept i reason q keeps =
      dead_letter_and_ack-IsKept i reason (land i q) keeps.safe (locks-land i q keeps)
        (flying-remove stream parse i q keeps)

  settle-IsKept :
      (i : ℕ) (e : Envelope) (outcome : HandlerOutcome) (allowed : Bool) (q : StreamState)
      → parse (stream i) ≡ some e
      → IsKept q
      → IsKept (settle stream parse i e outcome allowed q)
  unfolding settle
  settle-IsKept i e ack allowed q p keeps = record {
    safe = λ j h.
        Leaves-IsSafe stream parse i q (xack i (record (land i q) { done = e.dedup_key ∷ q.done }))
          (record {
            left = refl;
            done_more = λ k x. inr x;
            dead_more = λ P x. x;
            accounted = inr (e.dedup_key, (e, p, refl), inl (inl refl));
          })
          j (keeps.safe j h);
    locks = λ k h. elim (locks-land i q keeps k h) [
      | inl own ↦ inl (inl (Keyed-unique stream parse e.dedup_key k i (e, p, refl) own))
      | inr guarded ↦ elim guarded [ inl x ↦ inl (inr x) | inr y ↦ inr y ]
    ];
    flying = flying-remove stream parse i q keeps;
  }
  settle-IsKept i e (retry reason) true q p keeps = record {
    safe = keeps.safe;
    locks = λ k h.
        let (other, there) = HasKey-unlock k e.dedup_key q.dedup h in
        elim (locks-land i q keeps k there) [
          | inl own ↦ absurd (other (Keyed-unique stream parse k e.dedup_key i own (e, p, refl)))
          | inr guarded ↦ guarded
        ];
    flying = λ j h. keeps.flying j (Has-remove j i q.flights h).1;
  }
  settle-IsKept i e (retry reason) false q p keeps =
      given_up-IsKept i (codes "retry-budget-exhausted: " ++ reason) q keeps
  settle-IsKept i e (dead_letter reason) allowed q p keeps = given_up-IsKept i reason q keeps
  settle-IsKept i e (threw message) allowed q p keeps = given_up-IsKept i message q keeps

  pub Step-IsKept : (q r : StreamState) → Step stream parse q r → IsKept q → IsKept r
  unfolding claim
  Step-IsKept q r (publish i) keeps = record {
    safe = λ j h. elim h [
      | inl same ↦ inl (inl same)
      | inr older ↦ elim (keeps.safe j older) [
        | inl x ↦ inl (inr x)
        | inr y ↦ elim y [
          | inl z ↦ inr (inl z)
          | inr (k, keyed, carried) ↦ inr (
              inr (
                k,
                keyed,
                elim carried [
                  | inl x ↦ inl x
                  | inr w ↦ elim w [ inl x ↦ inr (inl x) | inr x ↦ inr (inr (inr x)) ]
                ],
              ))
        ]
      ]
    ];
    locks = keeps.locks;
    flying = λ j h. inr (keeps.flying j h);
  }
  Step-IsKept q r (start i here idle) keeps =
      after_parse-IsKept i (parse (stream i)) q refl keeps here idle
  Step-IsKept q r (finish i e outcome allowed flies p) keeps =
      settle-IsKept i e outcome allowed q p keeps
  Step-IsKept q r (expire key) keeps = record {
    safe = keeps.safe;
    locks = λ k h. keeps.locks k (HasKey-unlock k key q.dedup h).1;
    flying = keeps.flying;
  }

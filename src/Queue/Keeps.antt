-- ===== src/Queue/Keeps.antt =====
-- The invariant of the stream: where a message is, and what stands behind a lock.
use vigil_apex_f.Common.{ℕ, ◌≡◌, sym, subst, ◌⊎◌, inl, inr, Option, some, Text, Any}
use vigil_apex_f.Queue.{Envelope, DeadLetter, StreamState, remove, Has}
use vigil_apex_f.Queue.Removal.{Any-map, Any-remove, Has-remove, HasKey}

module _ (stream : ℕ → Text) (parse : Text → Option Envelope) where
  -- The message has an envelope with this dedup key.
  abbrev pub Keyed : Text → ℕ → Type 0
  Keyed k i = (e : Envelope) × (parse (stream i) ≡ some e) × (e.dedup_key ≡ k)

  pub Keyed-unique : (k key : Text) (i : ℕ) → Keyed k i → Keyed key i → k ≡ key
  Keyed-unique k key i (e, p, q) (f, r, s) = cc (p, q, r, s)

  abbrev pub IsLetterOf : ℕ → DeadLetter → Type 0
  IsLetterOf i d = d.original_redis_id ≡ i

  abbrev pub LetterKeyed : Text → DeadLetter → Type 0
  LetterKeyed k d = Keyed k d.original_redis_id

  -- The work of a key was done, was given up to the dead letters, or is still pending.
  abbrev pub IsCarried : Text → StreamState → Type 0
  IsCarried k q = HasKey k q.done ⊎ (Any (LetterKeyed k) q.dead ⊎ Any (Keyed k) q.pending)

  -- The same, with the message at a worker.
  abbrev pub IsGuarded : Text → StreamState → Type 0
  IsGuarded k q = HasKey k q.done ⊎ (Any (LetterKeyed k) q.dead ⊎ Any (Keyed k) q.flights)

  -- A message is pending, or a dead letter, or a duplicate of work that is carried.
  abbrev pub IsSafe : StreamState → ℕ → Type 0
  IsSafe q i =
      Has i q.pending ⊎ (Any (IsLetterOf i) q.dead ⊎ ((k : Text) × Keyed k i × IsCarried k q))

  pub record Keeps (q : StreamState) : Type 0 where
    pub safe : (i : ℕ) → Has i q.published → IsSafe q i
    pub locks : (k : Text) → HasKey k q.dedup → IsGuarded k q
    pub flying : (i : ℕ) → Has i q.flights → Has i q.pending

  -- What lets a message leave the pending ones.
  pub record Leaves (i : ℕ) (q r : StreamState) : Type 1 where
    pub left : r.pending ≡ remove i q.pending
    pub done_more : (k : Text) → HasKey k q.done → HasKey k r.done
    pub dead_more : (P : DeadLetter → Type 0) → Any P q.dead → Any P r.dead
    pub accounted : Any (IsLetterOf i) r.dead ⊎ ((k : Text) × Keyed k i × IsCarried k r)

  Leaves-IsCarried :
      (i : ℕ) (q r : StreamState) → Leaves i q r → (k : Text) → IsCarried k q → IsCarried k r
  Leaves-IsCarried i q r l k (inl h) = inl (l.done_more k h)
  Leaves-IsCarried i q r l k (inr (inl h)) = inr (inl (l.dead_more (LetterKeyed k) h))
  Leaves-IsCarried i q r l k (inr (inr h)) = go (Any-remove (Keyed k) i q.pending h) l.accounted
    where
      go :
          Keyed k i ⊎ Any (Keyed k) (remove i q.pending)
          → Any (IsLetterOf i) r.dead ⊎ ((k : Text) × Keyed k i × IsCarried k r)
          → IsCarried k r
      go (inr kept) out = inr (inr (subst (Any (Keyed k)) (sym l.left) kept))
      go (inl own) (inl letter) = inr (
          inl (
            Any-map (IsLetterOf i) (LetterKeyed k) (λ d e. subst (Keyed k) (sym e) own) r.dead
              letter))
      go (inl own) (inr (key, keyed, carried)) =
          subst (λ k. IsCarried k r) (Keyed-unique key k i keyed own) carried

  pub Leaves-IsSafe : (i : ℕ) (q r : StreamState) → Leaves i q r → (j : ℕ) → IsSafe q j → IsSafe r j
  Leaves-IsSafe i q r l j (inl h) = elim (Any-remove (λ m. m ≡ j) i q.pending h) [
    | inr kept ↦ inl (subst (Has j) (sym l.left) kept)
    | inl same ↦ inr (
        subst (λ j. Any (IsLetterOf j) r.dead ⊎ ((k : Text) × Keyed k j × IsCarried k r)) same
          l.accounted)
  ]
  Leaves-IsSafe i q r l j (inr (inl h)) = inr (inl (l.dead_more (IsLetterOf j) h))
  Leaves-IsSafe i q r l j (inr (inr (k, keyed, carried))) =
      inr (inr (k, keyed, Leaves-IsCarried i q r l k carried))

  pub flying-remove :
      (i : ℕ) (q : StreamState)
      → Keeps q
      → (j : ℕ) → Has j (remove i q.flights)
      → Has j (remove i q.pending)
  flying-remove i q keeps j h =
      let (other, there) = Has-remove j i q.flights h in
      elim (Any-remove (λ m. m ≡ j) i q.pending (keeps.flying j there)) [
        | inl same ↦ absurd (other (sym same))
        | inr kept ↦ kept
      ]

  pub flying-apart :
      (i : ℕ) (q : StreamState)
      → Keeps q
      → (Has i q.flights → ⊥)
      → (j : ℕ) → Has j q.flights
      → Has j (remove i q.pending)
  flying-apart i q keeps idle j h = elim (Any-remove (λ m. m ≡ j) i q.pending (keeps.flying j h)) [
    | inl same ↦ absurd (idle (subst (λ m. Has m q.flights) (sym same) h))
    | inr kept ↦ kept
  ]

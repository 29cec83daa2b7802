-- ===== src/Anomaly/Own.antt =====
-- Events of an actor, alerts about them and groups of them, for the rules of
-- packages/audit-log/src/anomaly.ts.
use vigil_apex_f.Common.{
  ◌≡◌, inl, inr, refl, sym, subst, Bool, true, false, List, [], ◌∷◌, map, Text, length, keep, ltb,
  All, All-append, Any, text_eq, text_eq_iff, Bool-cases, if◌then◌else◌,
}
use vigil_apex_f.Anomaly.{
  AnomalyEvent, AnomalyKind, AlertSeverity, AnomalyRuleResult, Events, alert, by, for_actors,
  group_by, insert_longest, sort_longest,
}
use vigil_apex_f.Anomaly.Groups.{push_at}

-- An event of the window by the actor.
abbrev pub Own : Events → Text → AnomalyEvent → Type 0
Own events actor e = Any (λ x. x ≡ e) events × (e.actor_id ≡ actor)

-- The alert names events of the window only, all of them by its actor.
abbrev pub IsTriggered : Events → AnomalyRuleResult → Type 0
IsTriggered events r =
    All (λ id. (e : AnomalyEvent) × Own events r.actor_id e × (e.event_id ≡ id))
      r.triggering_event_ids

-- The members of a list that pass a test.
pub keep-All :
    (P Q : AnomalyEvent → Type 0) (p : AnomalyEvent → Bool)
    → ((e : AnomalyEvent) → P e → p e ≡ true → Q e)
    → (es : Events) → All P es
    → All Q (keep p es)
keep-All P Q p f [] h = tt
keep-All P Q p f (e ∷ es) (h, hs) = elim (Bool-cases (p e)) [
  | inl on ↦ rw on (f e h on, keep-All P Q p f es hs)
  | inr off ↦ rw off (keep-All P Q p f es hs)
]

abbrev pub Member : Events → AnomalyEvent → Type 0
Member events e = Any (λ x. x ≡ e) events

Member-cons :
    (x : AnomalyEvent) (events es : Events) → All (Member events) es → All (Member (x ∷ events)) es
Member-cons x events [] h = tt
Member-cons x events (e ∷ es) (h, hs) = (inr h, Member-cons x events es hs)

pub Member-self : (events : Events) → All (Member events) events
Member-self [] = tt
Member-self (e ∷ es) = (inl refl, Member-cons e es es (Member-self es))

by-actor : (actor : Text) (e : AnomalyEvent) → by actor e ≡ true → e.actor_id ≡ actor
by-actor actor e h = (text_eq_iff e.actor_id actor).0 h

-- The events that a test keeps are the actor's, when the test asks for the actor.
pub keep-Own :
    (events : Events) (actor : Text) (p : AnomalyEvent → Bool)
    → ((e : AnomalyEvent) → p e ≡ true → by actor e ≡ true)
    → All (Own events actor) (keep p events)
keep-Own events actor p asks =
    keep-All (Member events) (Own events actor) p (λ e m h. (m, by-actor actor e (asks e h))) events
      (Member-self events)

module _ (now : Text) (events : Events) where
  pub alert-IsTriggered :
      (kind : AnomalyKind) (actor : Text) (severity : AlertSeverity) (es : Events)
      → All (Own events actor) es
      → IsTriggered events (alert now kind actor severity es)
  alert-IsTriggered kind actor severity es h = go es h
    where
      go :
          (xs : Events)
          → All (Own events actor) xs
          → All
              (λ id. (e : AnomalyEvent) × Own events actor e × (e.event_id ≡ id))
              (map (λ e. e.event_id) xs)
      go [] h = tt
      go (x ∷ xs) (h, hs) = ((x, h, refl), go xs hs)

  -- Either branch of a rule that raises an alert or passes over it.
  pub skip-IsTriggered :
      (b : Bool) (kind : AnomalyKind) (actor : Text) (severity : AlertSeverity) (es : Events)
      (rest : List AnomalyRuleResult)
      → All (Own events actor) es
      → All (IsTriggered events) rest
      → All (IsTriggered events) (if b then rest else alert now kind actor severity es ∷ rest)
  skip-IsTriggered true kind actor severity es rest h hs = hs
  skip-IsTriggered false kind actor severity es rest h hs =
      (alert-IsTriggered kind actor severity es h, hs)

  pub for_actors-IsTriggered :
      (rule : Text → List AnomalyRuleResult)
      → ((actor : Text) → All (IsTriggered events) (rule actor))
      → (actors : List Text) → All (IsTriggered events) (for_actors rule actors)
  for_actors-IsTriggered rule h [] = tt
  for_actors-IsTriggered rule h (actor ∷ actors) =
      All-append (IsTriggered events) (rule actor) (for_actors rule actors) (h actor)
        (for_actors-IsTriggered rule h actors)

-- The groups of a Map whose events all fit their key.
abbrev pub Grouped : (Text → AnomalyEvent → Type 0) → List (Text × Events) → Type 0
Grouped Q = All (λ g. All (Q g.0) g.1)

module _ (Q : Text → AnomalyEvent → Type 0) where
  pub push_at-Grouped :
      (key : Text) (e : AnomalyEvent) (m : List (Text × Events))
      → Q key e
      → Grouped Q m
      → Grouped Q (push_at key e m)
  push_at-Grouped key e [] h g = ((h, tt), tt)
  push_at-Grouped key e ((k, list) ∷ m) h (g, gs) = elim (Bool-cases (text_eq k key)) [
    | inl on ↦
        let here : Q k e = subst (λ x. Q x e) (sym ((text_eq_iff k key).0 on)) h in
        rw on (All-append (Q k) list (e ∷ []) g (here, tt), gs)
    | inr off ↦ rw off (g, push_at-Grouped key e m h gs)
  ]

  pub group_by-Grouped :
      (key : AnomalyEvent → Text) (m : List (Text × Events)) (es : Events)
      → Grouped Q m
      → All (λ e. Q (key e) e) es
      → Grouped Q (group_by key m es)
  group_by-Grouped key m [] g h = g
  group_by-Grouped key m (e ∷ es) g (h, hs) =
      group_by-Grouped key (push_at (key e) e m) es (push_at-Grouped (key e) e m h g) hs

  pub insert_longest-Grouped :
      (g : Text × Events) (m : List (Text × Events))
      → All (Q g.0) g.1
      → Grouped Q m
      → Grouped Q (insert_longest g m)
  insert_longest-Grouped g [] h hs = (h, tt)
  insert_longest-Grouped g (k ∷ m) h (x, xs) = elim (Bool-cases (ltb (length g.1) (length k.1))) [
    | inl on ↦ rw on (x, insert_longest-Grouped g m h xs)
    | inr off ↦ rw off (h, (x, xs))
  ]

  pub sort_longest-Grouped : (m : List (Text × Events)) → Grouped Q m → Grouped Q (sort_longest m)
  sort_longest-Grouped [] h = tt
  sort_longest-Grouped (g ∷ m) (h, hs) =
      insert_longest-Grouped g (sort_longest m) h (sort_longest-Grouped m hs)

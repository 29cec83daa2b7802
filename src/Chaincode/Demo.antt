-- ===== src/Chaincode/Demo.antt =====
-- A concrete world state and a concrete JSON, on which the tests of the witness contract run.
use vigil_apex_f.Common.{
  ℕ, zero, suc, Bool, ◌≡◌, ◌≢◌, refl, ap, inl, inr, true, false, not, ◌&&◌, Option, none, some,
  List, [], ◌∷◌, ◌++◌, Text, arith, length, keep, text_eq, text_eq_iff, text_eq_refl, Bool-cases,
  All, Any, if◌then◌else◌,
}
use vigil_apex_f.AuditChain.Json.{text_lt}
use vigil_apex_f.AuditChain.Canonical.{decimal}
use vigil_apex_f.Chaincode.{Commitment, Fabric}
use vigil_apex_f.Chaincode.Spec.{IsFabric}
use vigil_apex_f.Chaincode.Sweep.{IsRanged}

abbrev pub World : Type 0
World = List (Text × Text)

lookup : World → Text → Text
lookup [] k = []
lookup ((j, v) ∷ w) k = if text_eq j k then v else lookup w k

abbrev filled : Text → Bool
filled [] = false
filled (c ∷ t) = true

abbrev within : Text → Text → Text × Text → Bool
within lo hi e = (not (text_lt e.0 lo) && text_lt e.0 hi) && filled e.1

-- Every key of the list with its current value.
current : World → World → World
unfolding lookup
current w [] = []
current w ((j, v) ∷ es) = (j, lookup w j) ∷ current w es

abbrev first : ℕ → Text → Text
first zero t = []
first (suc n) [] = []
first (suc n) (c ∷ t) = c ∷ first n t

abbrev rest : ℕ → Text → Text
rest zero t = t
rest (suc n) [] = []
rest (suc n) (c ∷ t) = rest n t

first-append : (s t : Text) → first (length s) (s ++ t) ≡ s
first-append [] t = refl
first-append (c ∷ s) t = ap (λ l. c ∷ l) (first-append s t)

rest-append : (s t : Text) → rest (length s) (s ++ t) ≡ t
rest-append [] t = refl
rest-append (c ∷ s) t = rest-append s t

-- The fields, after the lengths of two of them.
abbrev print : Commitment → Text
print c = length c.seq ∷ length c.body_hash ∷ (c.seq ++ (c.body_hash ++ c.recorded_at))

abbrev read : Text → Option Commitment
read [] = none
read (n ∷ []) = none
read (n ∷ m ∷ t) =
    some
      (record { seq = first n t; body_hash = first m (rest n t); recorded_at = rest m (rest n t) })

unfoldable pub fabric : Fabric World
unfolding lookup current
fabric = record {
  get_state = lookup;
  put_state = λ k v w. (k, v) ∷ w;
  get_state_by_range = λ lo hi w. keep (within lo hi) (current w w);
  stringify = print;
  parse = read;
  to_iso = decimal;
}

read-print : (c : Commitment) → read (print c) ≡ some c
read-print c =
    rw
      (
        first-append c.seq (c.body_hash ++ c.recorded_at),
        rest-append c.seq (c.body_hash ++ c.recorded_at),
        first-append c.body_hash c.recorded_at,
        rest-append c.body_hash c.recorded_at,
      )
      refl

pub fabric-IsFabric : IsFabric fabric
unfolding lookup fabric
fabric-IsFabric = record {
  get_put_same = λ k v w. rw (text_eq_refl k) refl;
  get_put_other = λ k j v w apart. elim (Bool-cases (text_eq k j)) [
    | inl on ↦ absurd (apart ((text_eq_iff k j).0 on))
    | inr off ↦ rw off refl
  ];
  parse_stringify = read-print;
  stringify_some = λ c e. cc e;
}

module _ (lo hi : Text) (w : World) where
  abbrev Inside : Text × Text → Type 0
  Inside e =
      (text_lt e.0 lo ≡ false)
      × (text_lt e.0 hi ≡ true)
      × (fabric.get_state w e.0 ≡ e.1)
      × (e.1 ≢ [])

  filled-some : (t : Text) → filled t ≡ true → t ≢ []
  filled-some [] h e = cc h
  filled-some (c ∷ t) h e = cc e

  some-filled : (t : Text) → t ≢ [] → filled t ≡ true
  some-filled [] h = absurd (h refl)
  some-filled (c ∷ t) h = refl

  Inside-keep : (es : World) → All Inside (keep (within lo hi) (current w es))
  unfolding current fabric
  Inside-keep [] = tt
  Inside-keep ((j, v) ∷ es) = elim (Bool-cases (within lo hi (j, lookup w j))) [
    | inl on ↦ rw on (
      (ground (arith, on), ground (arith, on), refl, filled-some (lookup w j) (ground (arith, on))),
      Inside-keep es,
    )
    | inr off ↦ rw off (Inside-keep es)
  ]

  -- A key with a value stands in the list.
  complete-keep :
      (k : Text) (es : World)
      → text_lt k lo ≡ false
      → text_lt k hi ≡ true
      → lookup w k ≢ []
      → lookup es k ≢ []
      → Any (λ e. e ≡ (k, lookup w k)) (keep (within lo hi) (current w es))
  unfolding current lookup
  complete-keep k [] low high some_v there = absurd (there refl)
  complete-keep k ((j, v) ∷ es) low high some_v there = elim (Bool-cases (text_eq j k)) [
    | inl on ↦
        let same = (text_eq_iff j k).0 on in
        let held : within lo hi (j, lookup w j) ≡ true =
          rw (same, low, high, some-filled (lookup w k) some_v) refl in
        rw held (inl (ap (λ x. (x, lookup w x)) same))
    | inr off ↦
        let more : Any (λ e. e ≡ (k, lookup w k)) (keep (within lo hi) (current w es)) =
          complete-keep k es low high some_v (rw off at there) in
        elim (Bool-cases (within lo hi (j, lookup w j))) [
          | inl on ↦ rw on (inr more)
          | inr out ↦ rw out more
        ]
  ]

pub fabric-IsRanged : IsRanged fabric
unfolding fabric current
fabric-IsRanged = record {
  inside = λ lo hi w. Inside-keep lo hi w w;
  complete = λ lo hi k w low high some_v. complete-keep lo hi w k w low high some_v some_v;
}

pub empty : (k : Text) → fabric.get_state [] k ≡ []
unfolding fabric lookup
empty k = refl

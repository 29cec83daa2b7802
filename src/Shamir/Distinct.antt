-- ===== src/Shamir/Distinct.antt =====
-- Lists of coordinates without a coordinate that comes twice.
use vigil_apex_f.Common.{
  ℕ, zero, suc, ◌<◌, ◌≡◌, ◌≢◌, refl, sym, arith, false, ◌==◌, ==_iff, ltb, List, [], ◌∷◌, length,
  any, Bool-cases, inl, inr,
}
use vigil_apex_f.Shamir.{lookup}

-- No two entries are the same.
abbrev pub AreDistinct : List ℕ → Type 0
AreDistinct xs = (i j : ℕ) → i < j → j < length xs → lookup xs i ≢ lookup xs j

-- No entry of the one list is an entry of the other.
abbrev pub AreDisjoint : List ℕ → List ℕ → Type 0
AreDisjoint xs ys = (i j : ℕ) → i < length xs → j < length ys → lookup xs i ≢ lookup ys j

any-false-at :
    (xs : List ℕ) (c i : ℕ) → any (λ x. x == c) xs ≡ false → i < length xs → lookup xs i ≢ c
unfolding lookup
any-false-at [] c i e h same = absurd (omega (arith, h))
any-false-at (x ∷ xs) c zero e h same = let equal = (==_iff x c).1 same in cc (rw equal at e)
any-false-at (x ∷ xs) c (suc i) e h same = elim (Bool-cases (x == c)) [
  | inl on ↦ cc (rw on at e)
  | inr off ↦ any-false-at xs c i (rw off at e) (omega (arith, h)) same
]

pub any-false-from :
    (xs : List ℕ) (c : ℕ)
    → ((i : ℕ) → i < length xs → lookup xs i ≢ c)
    → any (λ x. x == c) xs ≡ false
unfolding lookup
any-false-from [] c h = refl
any-false-from (x ∷ xs) c h = elim (Bool-cases (x == c)) [
  | inl on ↦ absurd (h 0 (omega arith) ((==_iff x c).0 on))
  | inr off ↦ rw off (any-false-from xs c (λ i hi. h (suc i) (omega (arith, hi))))
]

pub AreDisjoint-move :
    (c : ℕ) (xs ys : List ℕ)
    → any (λ x. x == c) xs ≡ false
    → AreDisjoint (c ∷ xs) ys
    → AreDisjoint xs (c ∷ ys)
unfolding lookup
AreDisjoint-move c xs ys new d i zero hi hj = any-false-at xs c i new hi
AreDisjoint-move c xs ys new d i (suc j) hi hj = d (suc i) j (omega (arith, hi)) (omega (arith, hj))

pub AreDisjoint-back :
    (c : ℕ) (xs ys : List ℕ)
    → AreDisjoint xs (c ∷ ys)
    → AreDistinct (c ∷ ys)
    → AreDisjoint (c ∷ xs) ys
unfolding lookup
AreDisjoint-back c xs ys d distinct zero j hi hj =
    distinct 0 (suc j) (omega arith) (omega (arith, hj))
AreDisjoint-back c xs ys d distinct (suc i) j hi hj =
    d i (suc j) (omega (arith, hi)) (omega (arith, hj))

pub AreDistinct-cons :
    (c : ℕ) (xs ys : List ℕ) → AreDisjoint (c ∷ xs) ys → AreDistinct ys → AreDistinct (c ∷ ys)
unfolding lookup
AreDistinct-cons c xs ys d distinct i zero lt hj = absurd (omega (arith, lt))
AreDistinct-cons c xs ys d distinct zero (suc j) lt hj = d 0 j (omega arith) (omega (arith, hj))
AreDistinct-cons c xs ys d distinct (suc i) (suc j) lt hj =
    distinct i j (omega (arith, lt)) (omega (arith, hj))

pub AreDistinct-tail : (c : ℕ) (ys : List ℕ) → AreDistinct (c ∷ ys) → AreDistinct ys
unfolding lookup
AreDistinct-tail c ys distinct i j lt hj =
    distinct (suc i) (suc j) (omega (arith, lt)) (omega (arith, hj))

pub AreDistinct-apart :
    (xs : List ℕ) (i k : ℕ)
    → AreDistinct xs
    → i < length xs
    → k < length xs
    → k ≢ i
    → lookup xs i ≢ lookup xs k
AreDistinct-apart xs i k distinct hi hk apart same = elim (Bool-cases (ltb i k)) [
  | inl lt ↦ distinct i k (ground (arith, lt)) hk same
  | inr ge ↦ elim (Bool-cases (k == i)) [
    | inl equal ↦ apart ((==_iff k i).0 equal)
    | inr other ↦ distinct k i (ground (arith, ge, other)) hi (sym same)
  ]
]

-- ===== src/Queue/Removal.antt =====
-- Existence in the lists that ids and keys are taken out of.
use vigil_apex_f.Common.{
  ℕ, ◌≡◌, ◌≢◌, refl, sym, subst, ◌∙◌, ◌⊎◌, inl, inr, Bool, true, false, not, List, [], ◌∷◌, Text,
  ◌==◌, text_eq, text_eq_iff, keep, any, Any, arith, Bool-cases,
}
use vigil_apex_f.Queue.{remove, unlock, Has}

module _ {A : Type 0} where
  pub Any-map : (P Q : A → Type 0) (f : (a : A) → P a → Q a) (xs : List A) → Any P xs → Any Q xs
  Any-map P Q f [] h = h
  Any-map P Q f (x ∷ xs) (inl h) = inl (f x h)
  Any-map P Q f (x ∷ xs) (inr h) = inr (Any-map P Q f xs h)

  -- A member that was kept is a member, and passed the test.
  pub Any-keep_both :
      (P : A → Type 0) (f : A → Bool) (xs : List A)
      → Any P (keep f xs)
      → Any (λ a. P a × (f a ≡ true)) xs
  Any-keep_both P f [] h = h
  Any-keep_both P f (x ∷ xs) h = elim (Bool-cases (f x)) [
    | inl on ↦ elim (rw on at h) [
      | inl px ↦ inl (px, on)
      | inr rest ↦ inr (Any-keep_both P f xs rest)
    ]
    | inr off ↦ inr (Any-keep_both P f xs (rw off at h))
  ]

  -- A member is kept, or fails the test.
  pub Any-keep_split :
      (P : A → Type 0) (f : A → Bool) (xs : List A)
      → Any P xs
      → Any (λ a. P a × (f a ≡ false)) xs ⊎ Any P (keep f xs)
  Any-keep_split P f [] h = inr h
  Any-keep_split P f (x ∷ xs) (inl h) = elim (Bool-cases (f x)) [
    | inl on ↦ inr (rw on (inl h))
    | inr off ↦ inl (inl (h, off))
  ]
  Any-keep_split P f (x ∷ xs) (inr h) = elim (Any-keep_split P f xs h) [
    | inl lost ↦ inl (inr lost)
    | inr kept ↦ elim (Bool-cases (f x)) [
      | inl on ↦ inr (rw on (inr kept))
      | inr off ↦ inr (rw off kept)
    ]
  ]

  -- What holds of a member.
  pub Any-witness : (P : A → Type 0) (xs : List A) → Any P xs → (a : A) × P a × Any (λ b. b ≡ a) xs
  Any-witness P [] h = elim h [ ]
  Any-witness P (x ∷ xs) (inl h) = (x, h, inl refl)
  Any-witness P (x ∷ xs) (inr h) = let (a, pa, rest) = Any-witness P xs h in (a, pa, inr rest)

pub Any-remove : (P : ℕ → Type 0) (n : ℕ) (xs : List ℕ) → Any P xs → P n ⊎ Any P (remove n xs)
Any-remove P n xs h = elim (Any-keep_split P (λ m. not (m == n)) xs h) [
  | inr kept ↦ inr kept
  | inl lost ↦
      let (a, (pa, off), there) = Any-witness (λ a. P a × (not (a == n) ≡ false)) xs lost in
      let same : a ≡ n = ground (arith, off) in inl (subst P same pa)
]

pub Has-remove : (m n : ℕ) (xs : List ℕ) → Has m (remove n xs) → (m ≢ n) × Has m xs
Has-remove m n xs h =
    let both = Any-keep_both (λ a. a ≡ m) (λ a. not (a == n)) xs h in
    let (a, (same, on), there) = Any-witness (λ a. (a ≡ m) × (not (a == n) ≡ true)) xs both in
    (
      ground (arith, same, on),
      Any-map (λ a. (a ≡ m) × (not (a == n) ≡ true)) (λ a. a ≡ m) (λ a x. x.0) xs both,
    )

abbrev pub HasKey : Text → List Text → Type 0
HasKey key = Any (λ k. k ≡ key)

pub HasKey-unlock :
    (k key : Text) (xs : List Text) → HasKey k (unlock key xs) → (k ≢ key) × HasKey k xs
HasKey-unlock k key xs h =
    let both = Any-keep_both (λ a. a ≡ k) (λ a. not (text_eq a key)) xs h in
    let (a, (same, on), there) =
      Any-witness (λ a. (a ≡ k) × (not (text_eq a key) ≡ true)) xs both in
    (
      λ q. ground (arith, on, text_eq_iff a key, same ∙ q),
      Any-map (λ a. (a ≡ k) × (not (text_eq a key) ≡ true)) (λ a. a ≡ k) (λ a x. x.0) xs both,
    )

pub any-HasKey : (key : Text) (xs : List Text) → any (λ k. text_eq k key) xs ≡ true → HasKey key xs
any-HasKey key [] h = cc h
any-HasKey key (x ∷ xs) h = elim (Bool-cases (text_eq x key)) [
  | inl same ↦ inl ((text_eq_iff x key).0 same)
  | inr other ↦ inr (any-HasKey key xs (rw other at h))
]

-- From one list into another that has all its members.
pub Any-into :
    (P : ℕ → Type 0) (xs ys : List ℕ) → ((i : ℕ) → Has i xs → Has i ys) → Any P xs → Any P ys
Any-into P xs ys into h =
    let (a, pa, there) = Any-witness P xs h in
    Any-map (λ b. b ≡ a) P (λ b e. subst P (sym e) pa) ys (into a there)

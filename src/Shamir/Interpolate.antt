-- ===== src/Shamir/Interpolate.antt =====
-- The interpolation of one byte of the secret, from two lists of shares that differ in one share.
use vigil_apex_f.Common.{
  ℕ, zero, suc, ◌+◌, ◌<◌, ◌≡◌, refl, ◌∙◌, subst, arith, ◌==◌, List, [], ◌∷◌, ◌++◌, Bool-cases, inl,
  inr,
}
use vigil_apex_f.Shamir.{
  xor, lookup, gf_mul, Combined, combined, failed, coordinate, coefficient, basis, interpolate,
  ◌>>=◌,
}
use vigil_apex_f.Shamir.Bytes.{xor_bits-bound, xor_bits_cancel, xor_bits_comm}
use vigil_apex_f.Shamir.Field.{gf_mul-positive, gf_mul-bound, gf_mul_cancel, gf_div-positive}

-- Every number of the list is a byte.
unfoldable pub AreBytes : List ℕ → Type 0
AreBytes [] = Unit
AreBytes (b ∷ bs) = (b < 256) × AreBytes bs

-- No number of the list is zero.
unfoldable pub AreNonzero : List ℕ → Type 0
AreNonzero [] = Unit
AreNonzero (x ∷ xs) = (0 < x) × AreNonzero xs

xor-right_cancel : (a b t : ℕ) → a < 256 → b < 256 → xor a t ≡ xor b t → a ≡ b
xor-right_cancel a b t ha hb e =
    xor_bits_cancel 8 t a b ha hb (xor_bits_comm 8 t a ∙ e ∙ xor_bits_comm 8 b t)

pub lookup-bound : (bs : List ℕ) (i : ℕ) → AreBytes bs → lookup bs i < 256
unfolding AreBytes lookup
lookup-bound [] i h = omega arith
lookup-bound (b ∷ bs) zero h = h.0
lookup-bound (b ∷ bs) (suc i) h = lookup-bound bs i (h.1)

pub >>=-combined :
    {A B : Type 0} (r : Combined A) (rest : A → Combined B) (b : B)
    → (r >>= rest) ≡ combined b
    → (a : A) × (r ≡ combined a) × (rest a ≡ combined b)
>>=-combined (combined a) rest b e = (a, refl, e)
>>=-combined (failed error) rest b e = cc e

basis-positive :
    (i x_i j : ℕ) (xs : List ℕ) (num den : ℕ)
    → AreNonzero xs
    → 0 < num
    → 0 < (basis i x_i j xs num den).0
unfolding AreNonzero basis
basis-positive i x_i j [] num den h pos = pos
basis-positive i x_i j (x ∷ xs) num den h pos = elim (Bool-cases (j == i)) [
  | inl own ↦ rw own (basis-positive i x_i (j + 1) xs num den (h.1) pos)
  | inr other ↦ rw other (
      basis-positive i x_i (j + 1) xs (gf_mul num x) (gf_mul den (xor x_i x)) (h.1)
        (gf_mul-positive num x pos (h.0)))
]

-- The same shares to the end take two sums to one value only from one sum.
interpolate-injective :
    (xs : List ℕ) (idx i : ℕ) (ss : List (List ℕ)) (a b r : ℕ)
    → a < 256
    → b < 256
    → interpolate xs idx i ss a ≡ combined r
    → interpolate xs idx i ss b ≡ combined r
    → a ≡ b
unfolding interpolate
interpolate-injective xs idx i [] a b r ha hb ea eb = cc (ea, eb)
interpolate-injective xs idx i (s ∷ ss) a b r ha hb ea eb =
    let (c, ec, ra) =
      >>=-combined (coefficient xs i (coordinate s))
        (λ c. interpolate xs idx (i + 1) ss (xor a (gf_mul (lookup s idx) c))) r ea in
    let (d, ed, rb) =
      >>=-combined (coefficient xs i (coordinate s))
        (λ c. interpolate xs idx (i + 1) ss (xor b (gf_mul (lookup s idx) c))) r eb in
    let same : d ≡ c = cc (ec, ed) in
    let rb' =
      subst (λ d. interpolate xs idx (i + 1) ss (xor b (gf_mul (lookup s idx) d)) ≡ combined r) same
        rb in
    xor-right_cancel a b (gf_mul (lookup s idx) c) ha hb (
      interpolate-injective xs idx (i + 1) ss _ _ r (xor_bits-bound 8 a _) (xor_bits-bound 8 b _) ra
        rb')

pub interpolate-recovers :
    (xs : List ℕ) (idx i : ℕ) (before after : List (List ℕ)) (x : ℕ) (ys zs : List ℕ) (a r : ℕ)
    → AreNonzero xs
    → AreBytes (x ∷ ys)
    → AreBytes (x ∷ zs)
    → interpolate xs idx i (before ++ (x ∷ ys) ∷ after) a ≡ combined r
    → interpolate xs idx i (before ++ (x ∷ zs) ∷ after) a ≡ combined r
    → lookup (x ∷ ys) idx ≡ lookup (x ∷ zs) idx
unfolding interpolate lookup
interpolate-recovers xs idx i [] after x ys zs a r nonzero hy hz ey ez =
    let (c, ec, ry) =
      >>=-combined (coefficient xs i x)
        (λ c. interpolate xs idx (i + 1) after (xor a (gf_mul (lookup (x ∷ ys) idx) c))) r ey in
    let (d, ed, rz) =
      >>=-combined (coefficient xs i x)
        (λ c. interpolate xs idx (i + 1) after (xor a (gf_mul (lookup (x ∷ zs) idx) c))) r ez in
    let same : d ≡ c = cc (ec, ed) in
    let rz' =
      subst
        (λ d.
          interpolate xs idx (i + 1) after (xor a (gf_mul (lookup (x ∷ zs) idx) d)) ≡ combined r)
        same rz in
    let sums =
      interpolate-injective xs idx (i + 1) after _ _ r (xor_bits-bound 8 a _) (xor_bits-bound 8 a _)
        ry rz' in
    let products =
      xor_bits_cancel 8 a _ _ (gf_mul-bound (lookup (x ∷ ys) idx) c)
        (gf_mul-bound (lookup (x ∷ zs) idx) c) sums in
    gf_mul_cancel _ _ c (lookup-bound (x ∷ ys) idx hy) (lookup-bound (x ∷ zs) idx hz)
      (gf_div-positive _ _ c (basis-positive i x 0 xs 1 1 nonzero (omega arith)) ec) products
interpolate-recovers xs idx i (s ∷ before) after x ys zs a r nonzero hy hz ey ez =
    let (c, ec, ry) =
      >>=-combined (coefficient xs i (coordinate s))
        (λ c.
          interpolate xs idx (i + 1) (before ++ (x ∷ ys) ∷ after) (xor a (gf_mul (lookup s idx) c)))
        r ey in
    let (d, ed, rz) =
      >>=-combined (coefficient xs i (coordinate s))
        (λ c.
          interpolate xs idx (i + 1) (before ++ (x ∷ zs) ∷ after) (xor a (gf_mul (lookup s idx) c)))
        r ez in
    let same : d ≡ c = cc (ec, ed) in
    let rz' =
      subst
        (λ d.
          interpolate xs idx (i + 1) (before ++ (x ∷ zs) ∷ after) (xor a (gf_mul (lookup s idx) d))
          ≡ combined r)
        same rz in
    interpolate-recovers xs idx (i + 1) before after x ys zs _ r nonzero hy hz ry rz'

-- ===== src/Shamir/Total.antt =====
-- Which shares shamirCombine combines.
use vigil_apex_f.Common.{
  ℕ, zero, suc, ◌+◌, ◌-◌, ◌<◌, ◌≡◌, ◌≢◌, ◌↔◌, refl, sym, ap, ◌∙◌, subst, arith, false, ◌==◌, ==_iff,
  List, [], ◌∷◌, map, length, Bool-cases, inl, inr,
}
use vigil_apex_f.Shamir.{
  xor, lookup, gf_mul, combined, coordinate, basis, check_shares, interpolate, secret_bytes,
  shamir_combine, share_length,
}
use vigil_apex_f.Shamir.Bytes.{xor_bits_cancel, xor_bits_self}
use vigil_apex_f.Shamir.Checked.{check_shares-step, check_shares-nonzero}
use vigil_apex_f.Shamir.Distinct.{
  AreDistinct, AreDisjoint, any-false-from, AreDisjoint-move, AreDisjoint-back, AreDistinct-cons,
  AreDistinct-tail, AreDistinct-apart,
}
use vigil_apex_f.Shamir.Field.{gf_mul-positive, gf_div-returns}
use vigil_apex_f.Shamir.Interpolate.{AreBytes, AreNonzero, lookup-bound}
use vigil_apex_f.Shamir.Sized.{IsSized, shamir_combine-parts, shamir_combine-returns}

-- Every share has the length.
unfoldable pub HaveLength : ℕ → List (List ℕ) → Type 0
HaveLength len [] = Unit
HaveLength len (s ∷ ss) = (length s ≡ len) × HaveLength len ss

check_shares-disjoint :
    (len : ℕ) (xs : List ℕ) (ss : List (List ℕ)) (seen : List ℕ)
    → check_shares len xs ss ≡ combined seen
    → HaveLength len ss × AreDisjoint xs (map coordinate ss) × AreDistinct (map coordinate ss)
unfolding lookup HaveLength
check_shares-disjoint len xs [] seen e =
    (tt, λ i j hi hj. absurd (omega (arith, hj)), λ i j hi hj. absurd (omega (arith, hj)))
check_shares-disjoint len xs (s ∷ ss) seen e =
    let (fits, _, new, rest) = check_shares-step len xs s ss seen e in
    let (lengths, disjoint, distinct) =
      check_shares-disjoint len (coordinate s ∷ xs) ss seen rest in
    (
      (fits, lengths),
      AreDisjoint-move (coordinate s) xs (map coordinate ss) new disjoint,
      AreDistinct-cons (coordinate s) xs (map coordinate ss) disjoint distinct,
    )

check_shares-returns :
    (len : ℕ) (xs : List ℕ) (ss : List (List ℕ))
    → HaveLength len ss
    → AreNonzero (map coordinate ss)
    → AreDisjoint xs (map coordinate ss)
    → AreDistinct (map coordinate ss)
    → (seen : List ℕ) × (check_shares len xs ss ≡ combined seen)
unfolding check_shares lookup HaveLength AreNonzero
check_shares-returns len xs [] same nonzero disjoint distinct = (xs, refl)
check_shares-returns len xs (s ∷ ss) same nonzero disjoint distinct =
    let (seen, rest) =
      check_shares-returns len (coordinate s ∷ xs) ss (same.1) (nonzero.1)
        (AreDisjoint-back (coordinate s) xs (map coordinate ss) disjoint distinct)
        (AreDistinct-tail (coordinate s) (map coordinate ss) distinct) in
    let fits = (==_iff (length s) len).1 (same.0) in
    let given : (coordinate s == 0) ≡ false = ground (arith, nonzero.0) in
    let new = any-false-from xs (coordinate s) (λ i hi. disjoint i 0 hi (omega arith)) in
    (seen, rw (fits, given, new) rest)

xor-positive : (a b : ℕ) → a < 256 → b < 256 → a ≢ b → 0 < xor a b
xor-positive a b ha hb differ = elim (Bool-cases (xor a b == 0)) [
  | inl nought ↦ absurd (
      differ
        (xor_bits_cancel 8 a a b ha hb (xor_bits_self 8 a ∙ sym ((==_iff (xor a b) 0).0 nought))))
  | inr other ↦ ground (arith, other)
]

basis-nonzero :
    (i x_i j : ℕ) (xs : List ℕ) (num den : ℕ)
    → AreBytes xs
    → x_i < 256
    → ((k : ℕ) → k < length xs → j + k ≢ i → x_i ≢ lookup xs k)
    → 0 < den
    → 0 < (basis i x_i j xs num den).1
unfolding basis AreBytes lookup
basis-nonzero i x_i j [] num den bytes byte others pos = pos
basis-nonzero i x_i j (x ∷ xs) num den bytes byte others pos = elim (Bool-cases (j == i)) [
  | inl own ↦ rw own (
      basis-nonzero i x_i (j + 1) xs num den (bytes.1) byte
        (λ k hk ne. others (suc k) (omega (arith, hk)) (λ e. ne (omega (arith, e)))) pos)
  | inr other ↦
      let apart : j + 0 ≢ i = λ e. cc ((==_iff j i).1 (omega (arith, e)), other) in
      let differ = others 0 (omega arith) apart in
      rw other (
        basis-nonzero i x_i (j + 1) xs (gf_mul num x) (gf_mul den (xor x_i x)) (bytes.1) byte
          (λ k hk ne. others (suc k) (omega (arith, hk)) (λ e. ne (omega (arith, e))))
          (gf_mul-positive den (xor x_i x) pos (xor-positive x_i x byte (bytes.0) differ)))
]

interpolate-total :
    (xs : List ℕ) (idx i : ℕ) (ss : List (List ℕ)) (acc : ℕ)
    → AreBytes xs
    → AreDistinct xs
    → i + length ss ≡ length xs
    → ((k : ℕ) → k < length ss → lookup (map coordinate ss) k ≡ lookup xs (i + k))
    → (r : ℕ) × (interpolate xs idx i ss acc ≡ combined r)
unfolding interpolate lookup
interpolate-total xs idx i [] acc bytes distinct size suffix = (acc, refl)
interpolate-total xs idx i (s ∷ ss) acc bytes distinct size suffix =
    let here : coordinate s ≡ lookup xs i =
      suffix 0 (omega arith) ∙ ap (λ k. lookup xs k) (omega arith) in
    let byte = subst (λ x. x < 256) (sym here) (lookup-bound xs i bytes) in
    let positive =
      basis-nonzero i (coordinate s) 0 xs 1 1 bytes byte
        (λ k hk ne same.
          AreDistinct-apart xs i k distinct (omega (arith, size)) hk (λ e. ne (omega (arith, e)))
            (sym here ∙ same))
        (omega arith) in
    let (c, ec) = gf_div-returns ((basis i (coordinate s) 0 xs 1 1).0) _ positive in
    let (r, er) =
      interpolate-total xs idx (i + 1) ss (xor acc (gf_mul (lookup s idx) c)) bytes distinct
        (omega (arith, size))
        (λ k hk. suffix (suc k) (omega (arith, hk)) ∙ ap (λ k. lookup xs k) (omega arith)) in
    (r, rw ec er)

length-coordinates : (ss : List (List ℕ)) → length (map coordinate ss) ≡ length ss
length-coordinates [] = refl
length-coordinates (s ∷ ss) = ap (λ n. suc n) (length-coordinates ss)

secret_bytes-total :
    (shares : List (List ℕ)) (idx n : ℕ)
    → AreBytes (map coordinate shares)
    → AreDistinct (map coordinate shares)
    → (secret : List ℕ) × (secret_bytes shares idx n ≡ combined secret)
unfolding secret_bytes
secret_bytes-total shares idx zero bytes distinct = ([], refl)
secret_bytes-total shares idx (suc n) bytes distinct =
    let xs = map coordinate shares in
    let size = length-coordinates shares in
    let (b, eb) =
      interpolate-total xs idx 0 shares 0 bytes distinct (omega (arith, size))
        (λ k hk. ap (λ k. lookup xs k) (omega arith)) in
    let (bs, ebs) = secret_bytes-total shares (idx + 1) n bytes distinct in
    (b ∷ bs, rw (eb, ebs) refl)

-- Shares whose coordinates are bytes combine to a secret exactly when there are 2 to 255 of them,
-- the first has 2 to 65536 bytes, the others have as many, no coordinate is zero and no two are the
-- same.
pub shamir_combine_iff :
    (shares : List (List ℕ))
    → AreBytes (map coordinate shares)
    → ((secret : List ℕ) × (shamir_combine shares ≡ combined secret)) ↔ (
        IsSized shares
        × HaveLength (share_length shares) shares
        × AreNonzero (map coordinate shares)
        × AreDistinct (map coordinate shares))
shamir_combine_iff shares bytes = (
  λ (secret, e).
      let (sized, seen, checked, _) = shamir_combine-parts shares secret e in
      let (lengths, _, distinct) =
        check_shares-disjoint (share_length shares) [] shares seen checked in
      (sized, lengths, check_shares-nonzero (share_length shares) [] shares seen checked, distinct),
  λ (sized, lengths, nonzero, distinct).
      let (seen, checked) =
        check_shares-returns (share_length shares) [] shares lengths nonzero
          (λ i j hi hj. absurd (omega (arith, hi))) distinct in
      let (secret, e) = secret_bytes-total shares 1 (share_length shares - 1) bytes distinct in
      (secret, shamir_combine-returns shares secret sized seen checked e),
)

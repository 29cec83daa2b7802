-- ===== src/Shamir/Checked.antt =====
-- The checks of the shares' lengths and coordinates.
use vigil_apex_f.Common.{
  ℕ, ◌<◌, ◌≡◌, refl, arith, ◌==◌, ==_iff, List, [], ◌∷◌, ◌++◌, map, length, any, Bool-cases, false,
  inl, inr,
}
use vigil_apex_f.Shamir.{lookup, combined, coordinate, check_shares}
use vigil_apex_f.Shamir.Interpolate.{AreNonzero}

-- What the check of the shares leaves open is the bytes after the coordinates.
pub check_shares-swap :
    (len : ℕ) (xs : List ℕ) (before after : List (List ℕ)) (x : ℕ) (ys zs : List ℕ)
    → length ys ≡ length zs
    → check_shares len xs (before ++ (x ∷ ys) ∷ after)
      ≡ check_shares len xs (before ++ (x ∷ zs) ∷ after)
unfolding check_shares lookup
check_shares-swap len xs [] after x ys zs e = rw e refl
check_shares-swap len xs (s ∷ before) after x ys zs e =
    rw (check_shares-swap len (coordinate s ∷ xs) before after x ys zs e) refl

pub check_shares-step :
    (len : ℕ) (xs : List ℕ) (s : List ℕ) (ss : List (List ℕ)) (seen : List ℕ)
    → check_shares len xs (s ∷ ss) ≡ combined seen
    → (length s ≡ len)
      × (0 < coordinate s)
      × (any (λ x. x == coordinate s) xs ≡ false)
      × (check_shares len (coordinate s ∷ xs) ss ≡ combined seen)
unfolding check_shares
check_shares-step len xs s ss seen e = elim (Bool-cases (length s == len)) [
  | inr other ↦ cc (rw other at e)
  | inl fits ↦ elim (Bool-cases (coordinate s == 0)) [
    | inl nought ↦ cc (rw (fits, nought) at e)
    | inr given ↦ elim (Bool-cases (any (λ x. x == coordinate s) xs)) [
      | inl twice ↦ cc (rw (fits, given, twice) at e)
      | inr new ↦
          let rest = rw (fits, given, new) at e in
          ((==_iff (length s) len).0 fits, ground (arith, given), new, rest)
    ]
  ]
]

pub check_shares-nonzero :
    (len : ℕ) (xs : List ℕ) (ss : List (List ℕ)) (seen : List ℕ)
    → check_shares len xs ss ≡ combined seen
    → AreNonzero (map coordinate ss)
unfolding AreNonzero
check_shares-nonzero len xs [] seen e = tt
check_shares-nonzero len xs (s ∷ ss) seen e =
    let (_, pos, _, rest) = check_shares-step len xs s ss seen e in
    (pos, check_shares-nonzero len (coordinate s ∷ xs) ss seen rest)

pub check_shares-length :
    (len : ℕ) (xs : List ℕ) (before after : List (List ℕ)) (s : List ℕ) (seen : List ℕ)
    → check_shares len xs (before ++ s ∷ after) ≡ combined seen
    → length s ≡ len
check_shares-length len xs [] after s seen e = (check_shares-step len xs s after seen e).0
check_shares-length len xs (b ∷ before) after s seen e =
    check_shares-length len (coordinate b ∷ xs) before after s seen
      ((check_shares-step len xs b (before ++ s ∷ after) seen e).3)

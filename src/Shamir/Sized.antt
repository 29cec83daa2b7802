-- ===== src/Shamir/Sized.antt =====
-- The bounds on the number of the shares and on their length.
use vigil_apex_f.Common.{
  ℕ, ◌-◌, ◌≤◌, ◌≡◌, refl, arith, false, ltb, List, [], length, Bool-cases, inl, inr,
}
use vigil_apex_f.Shamir.{combined, check_shares, secret_bytes, shamir_combine, share_length, ◌>>=◌}
use vigil_apex_f.Shamir.Interpolate.{>>=-combined}

abbrev pub IsSized : List (List ℕ) → Type 0
IsSized shares =
    (2 ≤ length shares)
    × (length shares ≤ 255)
    × (2 ≤ share_length shares)
    × (share_length shares ≤ 65536)

shamir_combine-sized :
    (shares : List (List ℕ))
    → IsSized shares
    → shamir_combine shares ≡ (
        check_shares (share_length shares) [] shares
        >>= (λ xs. secret_bytes shares 1 (share_length shares - 1)))
unfolding shamir_combine
shamir_combine-sized shares (two, fits, byte, bounded) =
    let few : ltb (length shares) 2 ≡ false = ground (arith, two) in
    let many : ltb 255 (length shares) ≡ false = ground (arith, fits) in
    let short : ltb (share_length shares) 2 ≡ false = ground (arith, byte) in
    let long : ltb 65536 (share_length shares) ≡ false = ground (arith, bounded) in
    rw (few, many, short, long) refl

shamir_combine-IsSized :
    (shares : List (List ℕ)) (secret : List ℕ)
    → shamir_combine shares ≡ combined secret
    → IsSized shares
unfolding shamir_combine
shamir_combine-IsSized shares secret e = elim (Bool-cases (ltb (length shares) 2)) [
  | inl few ↦ cc (rw few at e)
  | inr two ↦ elim (Bool-cases (ltb 255 (length shares))) [
    | inl many ↦ cc (rw (two, many) at e)
    | inr fits ↦ elim (Bool-cases (ltb (share_length shares) 2)) [
      | inl short ↦ cc (rw (two, fits, short) at e)
      | inr byte ↦ elim (Bool-cases (ltb 65536 (share_length shares))) [
        | inl long ↦ cc (rw (two, fits, byte, long) at e)
        | inr bounded ↦ (
          ground (arith, two),
          ground (arith, fits),
          ground (arith, byte),
          ground (arith, bounded),
        )
      ]
    ]
  ]
]

pub shamir_combine-parts :
    (shares : List (List ℕ)) (secret : List ℕ)
    → shamir_combine shares ≡ combined secret
    → (sized : IsSized shares) × (seen : List ℕ) × (check_shares (share_length shares) [] shares
        ≡ combined seen)
      × (secret_bytes shares 1 (share_length shares - 1) ≡ combined secret)
shamir_combine-parts shares secret e =
    let sized = shamir_combine-IsSized shares secret e in
    let rest = rw (shamir_combine-sized shares sized) at e in
    let (seen, checked, bytes) =
      >>=-combined (check_shares (share_length shares) [] shares) _ secret rest in
    (sized, seen, checked, bytes)

pub shamir_combine-returns :
    (shares : List (List ℕ)) (secret : List ℕ) (sized : IsSized shares) (seen : List ℕ)
    → check_shares (share_length shares) [] shares ≡ combined seen
    → secret_bytes shares 1 (share_length shares - 1) ≡ combined secret
    → shamir_combine shares ≡ combined secret
shamir_combine-returns shares secret sized seen checked bytes =
    rw (shamir_combine-sized shares sized, checked, bytes) refl

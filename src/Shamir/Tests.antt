-- ===== src/Shamir/Tests.antt =====
-- shamirCombine at concrete shares: three shares of a secret of two bytes.
use vigil_apex_f.Common.{map, ◌↔◌, ◌≡◌, ◌≢◌, refl, ap, arith, ℕ, List, [], ◌∷◌}
use vigil_apex_f.Shamir.{
  share_length, coordinate, tables, mirrored, fill, next_power, store, zeroed, xor_bits, lookup,
  gf_mul, gf_div, combined, check_shares, basis, interpolate, secret_bytes, shamir_combine,
}
use vigil_apex_f.Shamir.Distinct.{AreDistinct}
use vigil_apex_f.Shamir.Interpolate.{AreBytes, AreNonzero}
use vigil_apex_f.Shamir.Sized.{IsSized}
use vigil_apex_f.Shamir.Total.{HaveLength, shamir_combine_iff}
use vigil_apex_f.Shamir.Corrupted.{shamir_combine-corrupted}

abbrev secret : List ℕ
secret = 200 ∷ 7 ∷ []

abbrev first_share : List ℕ
first_share = 1 ∷ 186 ∷ 251 ∷ []

abbrev third_share : List ℕ
third_share = 5 ∷ 128 ∷ 16 ∷ []

three_shares :
    shamir_combine (first_share ∷ (2 ∷ 123 ∷ 232 ∷ []) ∷ third_share ∷ []) ≡ combined (200 ∷ 7 ∷ [])
unfolding tables mirrored fill next_power store zeroed xor_bits lookup gf_mul gf_div check_shares
    basis interpolate secret_bytes shamir_combine
three_shares = refl

corrupted_shares :
    shamir_combine (first_share ∷ (2 ∷ 122 ∷ 232 ∷ []) ∷ third_share ∷ []) ≡ combined (27 ∷ 7 ∷ [])
unfolding tables mirrored fill next_power store zeroed xor_bits lookup gf_mul gf_div check_shares
    basis interpolate secret_bytes shamir_combine
corrupted_shares = refl

second_share-AreBytes : AreBytes (2 ∷ 123 ∷ 232 ∷ [])
unfolding AreBytes
second_share-AreBytes = (omega arith, (omega arith, (omega arith, tt)))

corrupted_share-AreBytes : AreBytes (2 ∷ 122 ∷ 232 ∷ [])
unfolding AreBytes
corrupted_share-AreBytes = (omega arith, (omega arith, (omega arith, tt)))

abbrev second_bytes : List ℕ
second_bytes = 123 ∷ 232 ∷ []

abbrev corrupted_bytes : List ℕ
corrupted_bytes = 122 ∷ 232 ∷ []

shares_differ : second_bytes ≢ corrupted_bytes
unfolding lookup
shares_differ same =
    let heads : 123 ≡ 122 = ap (λ l. lookup l 0) same in absurd (omega (arith, heads))

shamir_combine-corrupted_example :
    (other : List ℕ) × (shamir_combine (first_share ∷ (2 ∷ 122 ∷ 232 ∷ []) ∷ third_share ∷ [])
      ≡ combined other)
    × (other ≢ secret)
shamir_combine-corrupted_example =
    shamir_combine-corrupted (first_share ∷ []) (third_share ∷ []) 2 (123 ∷ 232 ∷ [])
      (122 ∷ 232 ∷ []) (200 ∷ 7 ∷ []) second_share-AreBytes corrupted_share-AreBytes refl
      shares_differ three_shares

abbrev shares : List (List ℕ)
shares = first_share ∷ (2 ∷ 123 ∷ 232 ∷ []) ∷ third_share ∷ []

coordinates-AreBytes : AreBytes (map coordinate shares)
unfolding AreBytes lookup
coordinates-AreBytes = (omega arith, (omega arith, (omega arith, tt)))

shamir_combine_iff_example : ((secret : List ℕ) × (shamir_combine shares ≡ combined secret)) ↔ (
    IsSized shares
    × HaveLength (share_length shares) shares
    × AreNonzero (map coordinate shares)
    × AreDistinct (map coordinate shares))
shamir_combine_iff_example = shamir_combine_iff shares coordinates-AreBytes

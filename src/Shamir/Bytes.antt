-- ===== src/Shamir/Bytes.antt =====
-- The `^` of bytes.
use vigil_apex_f.Common.{ℕ, zero, suc, ◌/◌, ◌^◌, ◌<◌, ◌≡◌, refl, arith}
use vigil_apex_f.Shamir.{xor_bits}

pub xor_bits-bound : (k a b : ℕ) → xor_bits k a b < 2 ^ k
unfolding xor_bits
xor_bits-bound zero a b = omega arith
xor_bits-bound (suc k) a b = let h = xor_bits-bound k (a / 2) (b / 2) in omega (arith, h)

pub xor_bits_cancel :
    (k a b c : ℕ) → b < 2 ^ k → c < 2 ^ k → xor_bits k a b ≡ xor_bits k a c → b ≡ c
unfolding xor_bits
xor_bits_cancel zero a b c hb hc e = omega (arith, hb, hc)
xor_bits_cancel (suc k) a b c hb hc e =
    let r =
      xor_bits_cancel k (a / 2) (b / 2) (c / 2) (omega (arith, hb)) (omega (arith, hc))
        (omega (arith, e)) in
    omega (arith, r, e)

pub xor_bits_comm : (k a b : ℕ) → xor_bits k a b ≡ xor_bits k b a
unfolding xor_bits
xor_bits_comm zero a b = refl
xor_bits_comm (suc k) a b = let h = xor_bits_comm k (a / 2) (b / 2) in omega (arith, h)

pub xor_bits_self : (k a : ℕ) → xor_bits k a a ≡ 0
unfolding xor_bits
xor_bits_self zero a = refl
xor_bits_self (suc k) a = omega (arith, xor_bits_self k (a / 2))

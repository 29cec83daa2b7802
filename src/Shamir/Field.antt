-- ===== src/Shamir/Field.antt =====
-- The tables of GF(256), and its multiplication and division of bytes.
use vigil_apex_f.Common.{
  ℕ, zero, suc, ◌+◌, ◌-◌, ◌%◌, ◌<◌, ◌≡◌, refl, sym, ap, ◌∙◌, subst, arith, Bool, true, false, ◌&&◌,
  ◌||◌, ◌==◌, ltb, ltb→lt, ==_iff, Bool-cases, inl, inr,
}
use vigil_apex_f.Shamir.{
  tables, mirrored, fill, next_power, store, zeroed, xor_bits, lookup, gf_mul, gf_div, combined,
  failed, division_by_zero,
}

unfoldable all_below : ℕ → (ℕ → Bool) → Bool
all_below zero test = true
all_below (suc n) test = test n && all_below n test

&&-both : (a b : Bool) → (a && b) ≡ true → (a ≡ true) × (b ≡ true)
&&-both true true e = (refl, refl)
&&-both true false e = (refl, e)
&&-both false b e = cc e

all_below-at : (n : ℕ) (test : ℕ → Bool) (i : ℕ) → i < n → all_below n test ≡ true → test i ≡ true
unfolding all_below
all_below-at zero test i h e = absurd (omega (arith, h))
all_below-at (suc n) test i h e =
    let both = &&-both (test n) (all_below n test) e in
    elim (Bool-cases (i == n)) [
      | inl same ↦ rw ((==_iff i n).0 same) (both.0)
      | inr other ↦ all_below-at n test i (ground (arith, h, other)) (both.1)
    ]

-- What the tables hold, at each entry.
exp_log_below : all_below 256 (λ x. x == 0 || lookup tables.exp (lookup tables.log x) == x) ≡ true
unfolding all_below tables mirrored fill next_power store zeroed xor_bits lookup
exp_log_below = refl

log_exp_below : all_below 255 (λ i. lookup tables.log (lookup tables.exp i) == i) ≡ true
unfolding all_below tables mirrored fill next_power store zeroed xor_bits lookup
log_exp_below = refl

log_below : all_below 256 (λ x. ltb (lookup tables.log x) 255) ≡ true
unfolding all_below tables mirrored fill next_power store zeroed xor_bits lookup
log_below = refl

exp_below : all_below 255 (λ i. ltb 0 (lookup tables.exp i) && ltb (lookup tables.exp i) 256) ≡ true
unfolding all_below tables mirrored fill next_power store zeroed xor_bits lookup
exp_below = refl

exp_log : (x : ℕ) → 0 < x → x < 256 → lookup tables.exp (lookup tables.log x) ≡ x
exp_log x pos h =
    let e =
      all_below-at 256 (λ x. x == 0 || lookup tables.exp (lookup tables.log x) == x) x h
        exp_log_below in
    ground (arith, e, pos)

log_exp : (i : ℕ) → i < 255 → lookup tables.log (lookup tables.exp i) ≡ i
log_exp i h =
    (==_iff (lookup tables.log (lookup tables.exp i)) i).0
      (all_below-at 255 (λ i. lookup tables.log (lookup tables.exp i) == i) i h log_exp_below)

exp-injective : (i j : ℕ) → i < 255 → j < 255 → lookup tables.exp i ≡ lookup tables.exp j → i ≡ j
exp-injective i j hi hj e = sym (log_exp i hi) ∙ ap (λ v. lookup tables.log v) e ∙ log_exp j hj

log-bound : (x : ℕ) → x < 256 → lookup tables.log x < 255
log-bound x h = ltb→lt _ _ (all_below-at 256 (λ x. ltb (lookup tables.log x) 255) x h log_below)

exp-bounds : (i : ℕ) → i < 255 → (0 < lookup tables.exp i) × (lookup tables.exp i < 256)
exp-bounds i h =
    let e =
      all_below-at 255 (λ i. ltb 0 (lookup tables.exp i) && ltb (lookup tables.exp i) 256) i h
        exp_below in
    let both = &&-both (ltb 0 (lookup tables.exp i)) (ltb (lookup tables.exp i) 256) e in
    (ltb→lt _ _ (both.0), ltb→lt _ _ (both.1))

gf_mul-exp :
    (a b : ℕ)
    → 0 < a
    → 0 < b
    → gf_mul a b ≡ lookup tables.exp ((lookup tables.log a + lookup tables.log b) % 255)
unfolding gf_mul
gf_mul-exp a b ha hb = ground (arith, ha, hb)

gf_mul-zero : (a b : ℕ) → a ≡ 0 → gf_mul a b ≡ 0
unfolding gf_mul
gf_mul-zero a b e = rw e refl

gf_mul-right_zero : (a : ℕ) → gf_mul a 0 ≡ 0
unfolding gf_mul
gf_mul-right_zero a = ground arith

pub gf_mul-positive : (a b : ℕ) → 0 < a → 0 < b → 0 < gf_mul a b
gf_mul-positive a b ha hb = rw (gf_mul-exp a b ha hb) ((exp-bounds _ (omega arith)).0)

pub gf_div-returns : (a b : ℕ) → 0 < b → (c : ℕ) × (gf_div a b ≡ combined c)
unfolding gf_div
gf_div-returns a b hb =
    let divides : (b == 0) ≡ false = ground (arith, hb) in
    elim (Bool-cases (a == 0)) [
      | inl none_left ↦ rw (divides, none_left) (0, refl)
      | inr some_left ↦ rw (divides, some_left) (_, refl)
    ]

gf_div-exp :
    (a b : ℕ)
    → 0 < a
    → 0 < b
    → gf_div a b
      ≡ combined (lookup tables.exp ((lookup tables.log a + 255 - lookup tables.log b) % 255))
unfolding gf_div
gf_div-exp a b ha hb = ground (arith, ha, hb)

gf_div-zero : (a : ℕ) → gf_div a 0 ≡ failed division_by_zero
unfolding gf_div
gf_div-zero a = refl

pub gf_div-positive : (a b c : ℕ) → 0 < a → gf_div a b ≡ combined c → 0 < c
gf_div-positive a zero c ha e = cc (gf_div-zero a, e)
gf_div-positive a (suc b) c ha e =
    let value : lookup tables.exp ((lookup tables.log a + 255 - lookup tables.log (suc b)) % 255)
        ≡ c =
      cc (gf_div-exp a (suc b) ha (omega arith), e) in
    subst (λ v. 0 < v) value ((exp-bounds _ (omega arith)).0)

pub gf_mul-bound : (a b : ℕ) → gf_mul a b < 256
gf_mul-bound zero b = rw (gf_mul-zero 0 b refl) (omega arith)
gf_mul-bound (suc a) zero = rw (gf_mul-right_zero (suc a)) (omega arith)
gf_mul-bound (suc a) (suc b) =
    rw (gf_mul-exp (suc a) (suc b) (omega arith) (omega arith)) ((exp-bounds _ (omega arith)).1)

pub gf_mul_cancel : (y z c : ℕ) → y < 256 → z < 256 → 0 < c → gf_mul y c ≡ gf_mul z c → y ≡ z
gf_mul_cancel zero zero c hy hz hc e = refl
gf_mul_cancel zero (suc z) c hy hz hc e =
    let zero_left = gf_mul-zero 0 c refl in
    let positive = gf_mul-positive (suc z) c (omega arith) hc in
    absurd (omega (arith, e, zero_left, positive))
gf_mul_cancel (suc y) zero c hy hz hc e =
    let zero_right = gf_mul-zero 0 c refl in
    let positive = gf_mul-positive (suc y) c (omega arith) hc in
    absurd (omega (arith, e, zero_right, positive))
gf_mul_cancel (suc y) (suc z) c hy hz hc e =
    let at_y = gf_mul-exp (suc y) c (omega arith) hc in
    let at_z = gf_mul-exp (suc z) c (omega arith) hc in
    let sums = exp-injective _ _ (omega arith) (omega arith) (sym at_y ∙ e ∙ at_z) in
    let logs : lookup tables.log (suc y) ≡ lookup tables.log (suc z) =
      omega (arith, sums, log-bound (suc y) hy, log-bound (suc z) hz) in
    let entries : lookup tables.exp (lookup tables.log (suc y))
        ≡ lookup tables.exp (lookup tables.log (suc z)) =
      ap (λ l. lookup tables.exp l) logs in
    sym (exp_log (suc y) (omega arith) hy) ∙ entries ∙ exp_log (suc z) (omega arith) hz

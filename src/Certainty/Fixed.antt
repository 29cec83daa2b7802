-- ===== src/Certainty/Fixed.antt =====
-- Hundredths as natural numbers, an instance of the numbers of packages/certainty-engine for the tests.
use vigil_apex_f.Common.{
  ℕ, ◌+◌, ◌-◌, ◌*◌, ◌/◌, refl, min, max, true, false, arith, ltb, leb, le→leb, leb→le,
}
use native.Mathlib.Nat.{div-le_of_le-mul}
use vigil_apex_f.Certainty.Double.{Doubles, IsOrdered, IsRounded}

unfoldable pub hundredths : Doubles ℕ
hundredths = record {
  zero = 0;
  one = 100;
  odds_clamp = 100000000000000000;
  action_threshold = 95;
  investigation_threshold = 80;
  downgraded = 94;
  add = λ x y. x + y;
  sub = λ x y. x - y;
  mul = λ x y. x * y / 100;
  div = λ x y. x * 100 / y;
  min = min;
  max = max;
  abs = λ x. x;
  lowest = 0;
  lt = ltb;
  le = leb;
  is_nan = λ x. false;
  is_finite = λ x. true;
}

pub hundredths-IsOrdered : IsOrdered hundredths
unfolding hundredths
hundredths-IsOrdered = record {
  finite_number = λ x h. refl;
  zero_finite = refl;
  one_finite = refl;
  clamp_finite = refl;
  not_lt = λ x y a b h. ground (arith, h);
  not_le = λ x y a b h. ground (arith, h);
  lt_le = λ x y h. ground (arith, h);
  unit_finite = λ x a b. refl;
  le_not_lt = λ x y h. ground (arith, h);
  le_number = λ x y h. refl;
  zero_le_one = refl;
  zero_le_clamp = refl;
  min_le = λ x y z. ground arith;
  le_trans = λ x y z h k. ground (arith, h, k);
  thresholds = refl;
  downgraded_above = refl;
  downgraded_below = refl;
}

pub hundredths-IsRounded : IsRounded hundredths
unfolding hundredths
hundredths-IsRounded = record {
  sub_one = λ x a h. refl;
  mul_unit = λ w x a h k. refl;
  one_add = λ x a. refl;
  sub_positive = λ x h. ground (arith, h);
  mul_nonneg = λ x y a h k. ground arith;
  add_above = λ x a h. (ground arith, ground arith);
  div_nonneg = λ x y a h k. ground arith;
  div_le_one = λ x y a h k positive.
      le→leb (x * 100 / y) 100 (div-le_of_le-mul y (omega (arith, leb→le x y k)));
}

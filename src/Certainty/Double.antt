-- ===== src/Certainty/Double.antt =====
-- The numbers of packages/certainty-engine: IEEE 754 doubles as operations of the language, and what
-- the standard says of them.
use vigil_apex_f.Common.{◌≡◌, Bool, true, false, ◌&&◌}

pub record Doubles (Double : Type 0) : Type 0 where
  pub zero : Double
  pub one : Double
  pub odds_clamp : Double
  -- 0.95, 0.8 and 0.94
  pub action_threshold : Double
  pub investigation_threshold : Double
  pub downgraded : Double
  pub add : Double → Double → Double
  pub sub : Double → Double → Double
  pub mul : Double → Double → Double
  pub div : Double → Double → Double
  -- Math.min, Math.max, Math.abs and -Infinity
  pub min : Double → Double → Double
  pub max : Double → Double → Double
  pub abs : Double → Double
  pub lowest : Double
  pub lt : Double → Double → Bool
  pub le : Double → Double → Bool
  pub is_nan : Double → Bool
  pub is_finite : Double → Bool

-- Comparisons with NaN are false, and Math.min of a NaN is NaN; otherwise the order is total.
pub record IsOrdered {Double : Type 0} (d : Doubles Double) : Type 0 where
  pub finite_number : (x : Double) → d.is_finite x ≡ true → d.is_nan x ≡ false
  pub zero_finite : d.is_finite d.zero ≡ true
  pub one_finite : d.is_finite d.one ≡ true
  pub clamp_finite : d.is_finite d.odds_clamp ≡ true
  pub not_lt :
      (x y : Double) → d.is_nan x ≡ false → d.is_nan y ≡ false → d.lt x y ≡ false → d.le y x ≡ true
  pub not_le :
      (x y : Double) → d.is_nan x ≡ false → d.is_nan y ≡ false → d.le x y ≡ false → d.lt y x ≡ true
  pub lt_le : (x y : Double) → d.lt x y ≡ true → d.le x y ≡ true
  pub unit_finite : (x : Double) → d.le d.zero x ≡ true → d.le x d.one ≡ true → d.is_finite x ≡ true
  pub le_not_lt : (x y : Double) → d.le x y ≡ true → d.lt y x ≡ false
  pub le_number : (x y : Double) → d.le x y ≡ true → d.is_nan y ≡ false
  pub zero_le_one : d.le d.zero d.one ≡ true
  pub zero_le_clamp : d.le d.zero d.odds_clamp ≡ true
  pub min_le : (x y z : Double) → d.le z (d.min x y) ≡ d.le z x && d.le z y
  pub le_trans : (x y z : Double) → d.le x y ≡ true → d.le y z ≡ true → d.le x z ≡ true
  pub thresholds : d.le d.investigation_threshold d.action_threshold ≡ true
  pub downgraded_above : d.le d.investigation_threshold d.downgraded ≡ true
  pub downgraded_below : d.le d.action_threshold d.downgraded ≡ false

-- The rounded operations are monotone.
pub record IsRounded {Double : Type 0} (d : Doubles Double) : Type 0 where
  pub sub_one :
      (x : Double)
      → d.is_finite x ≡ true
      → d.lt d.zero x ≡ true
      → d.is_finite (d.sub x d.one) ≡ true
  pub mul_unit :
      (w x : Double)
      → d.is_finite x ≡ true
      → d.le d.zero w ≡ true
      → d.le w d.one ≡ true
      → d.is_finite (d.mul w x) ≡ true
  pub one_add : (x : Double) → d.is_finite x ≡ true → d.is_finite (d.add d.one x) ≡ true
  pub sub_positive : (x : Double) → d.lt x d.one ≡ true → d.lt d.zero (d.sub d.one x) ≡ true
  pub mul_nonneg :
      (x y : Double)
      → d.le d.zero x ≡ true
      → d.lt d.zero y ≡ true
      → d.is_finite y ≡ true
      → d.le d.zero (d.mul x y) ≡ true
  pub add_above :
      (x : Double)
      → d.is_finite x ≡ true
      → d.le d.zero x ≡ true
      → (d.le x (d.add d.one x) ≡ true) × (d.lt d.zero (d.add d.one x) ≡ true)
  pub div_nonneg :
      (x y : Double)
      → d.is_finite x ≡ true
      → d.le d.zero x ≡ true
      → d.lt d.zero y ≡ true
      → d.le d.zero (d.div x y) ≡ true
  pub div_le_one :
      (x y : Double)
      → d.is_finite x ≡ true
      → d.le d.zero x ≡ true
      → d.le x y ≡ true
      → d.lt d.zero y ≡ true
      → d.le (d.div x y) d.one ≡ true

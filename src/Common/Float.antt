-- ===== src/Common/Float.antt =====
-- Python's `float`, as far as the rate limiters use it: the type and its operations are a
-- parameter of the model, so that no rounding is assumed away. `Num` is the `int | float` that the
-- stores hold.
use mathlib.Core.Bool.{Bool, true, false, not, ◌&&◌}
use mathlib.Core.Path.{◌≡◌}
use throttled_py.Common.Int.{ℤ, pos, ◌≤ℤ◌, leb_ℤ}
use throttled_py.Common.Tests.{if◌then◌else◌}

-- IEEE 754 arithmetic on finite values. The laws are documented facts about rounded operations:
-- they are monotone, keep the sign, a difference is zero only of equal values, and `ceil` is exact.
pub record Float : Type 1 where
  pub Real : Type 0
  pub of_int : ℤ → Real
  pub plus : Real → Real → Real
  pub minus : Real → Real → Real
  pub times : Real → Real → Real
  pub over : Real → Real → Real
  pub le : Real → Real → Bool
  pub floor : Real → ℤ
  pub ceil : Real → ℤ
  pub le_refl : (a : Real) → le a a ≡ true
  pub le_trans : (a b c : Real) → le a b ≡ true → le b c ≡ true → le a c ≡ true
  pub le_total : (a b : Real) → le a b ≡ false → le b a ≡ true
  pub of_int_mono : (a b : ℤ) → a ≤ℤ b → le (of_int a) (of_int b) ≡ true
  pub minus-le-zero : (a b : Real) → le a b ≡ true → le (minus a b) (of_int (pos 0)) ≡ true
  pub minus-pos : (a b : Real) → le a b ≡ false → le (minus a b) (of_int (pos 0)) ≡ false
  pub times-nonneg :
      (a b : Real)
      → le (of_int (pos 0)) a ≡ true
      → le (of_int (pos 0)) b ≡ true
      → le (of_int (pos 0)) (times a b) ≡ true
  pub times_mono :
      (a b c : Real)
      → le a b ≡ true
      → le (of_int (pos 0)) c ≡ true
      → le (times a c) (times b c) ≡ true
  pub over-nonneg :
      (a b : Real)
      → le (of_int (pos 0)) a ≡ true
      → le (of_int (pos 0)) b ≡ true
      → le (of_int (pos 0)) (over a b) ≡ true
  pub floor_mono : (a b : Real) → le a b ≡ true → floor a ≤ℤ floor b
  pub floor-of_int_zero : floor (of_int (pos 0)) ≡ pos 0
  pub ceil_mono : (a b : Real) → le a b ≡ true → ceil a ≤ℤ ceil b
  pub le-ceil : (a : Real) → le a (of_int (ceil a)) ≡ true
  pub ceil-of_int_zero : ceil (of_int (pos 0)) ≡ pos 0
  pub ceil-pos : (a : Real) → le a (of_int (pos 0)) ≡ false → pos 1 ≤ℤ ceil a

module _ ⦃F : Float⦄ where
  abbrev pub Real : Type 0
  Real = F.Real

  abbrev pub of_int : ℤ → Real
  of_int = F.of_int

  abbrev pub zero_f : Real
  zero_f = F.of_int (pos 0)

  abbrev pub plus : Real → Real → Real
  plus = F.plus

  abbrev pub minus : Real → Real → Real
  minus = F.minus

  abbrev pub times : Real → Real → Real
  times = F.times

  abbrev pub over : Real → Real → Real
  over = F.over

  abbrev pub le : Real → Real → Bool
  le = F.le

  -- `a < b`
  abbrev pub lt : Real → Real → Bool
  lt a b = not (F.le b a)

  -- `max(a, b)` and `min(a, b)`: the first argument, unless the second one is beyond it
  abbrev pub max_f : Real → Real → Real
  max_f a b = if lt a b then b else a

  abbrev pub min_f : Real → Real → Real
  min_f a b = if lt b a then b else a

  -- `abs(a)`
  abbrev pub abs_f : Real → Real
  abs_f a = if lt a zero_f then minus zero_f a else a

  -- `math.floor`, `math.ceil`
  abbrev pub floor : Real → ℤ
  floor = F.floor

  abbrev pub ceil : Real → ℤ
  ceil = F.ceil

  pub floor-nonneg : (a : Real) → le zero_f a ≡ true → pos 0 ≤ℤ floor a
  floor-nonneg a h = rw F.floor-of_int_zero at (F.floor_mono zero_f a h)

  pub ceil-nonneg : (a : Real) → le zero_f a ≡ true → pos 0 ≤ℤ ceil a
  ceil-nonneg a h = rw F.ceil-of_int_zero at (F.ceil_mono zero_f a h)

  -- `types._NumberLikeT`
  pub data Num : Type 0 where
    int : ℤ → Num
    float : Real → Num

  -- `int(x)`: a float is cut towards zero
  unfoldable pub to_int : Num → ℤ
  to_int (int z) = z
  to_int (float r) = if le zero_f r then floor r else ceil r

  -- `float(x)`
  unfoldable pub to_float : Num → Real
  to_float (int z) = of_int z
  to_float (float r) = r

  -- the truth value of a number
  unfoldable pub truthy : Num → Bool
  truthy (int z) = not (leb_ℤ z (pos 0) && leb_ℤ (pos 0) z)
  truthy (float r) = not (le r zero_f && le zero_f r)

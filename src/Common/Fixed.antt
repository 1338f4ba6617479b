-- ===== src/Common/Fixed.antt =====
-- Decimal fixed-point arithmetic in thousandths that rounds down: it has the laws of `Float`, so
-- they can be met together, and it runs in tests.
use Prim.Native.Nat.{ℕ, suc, ◌+◌, ◌*◌, ◌/◌, ◌≤◌}
use mathlib.Core.Bool.{true, false}
use mathlib.Core.Path.{◌≡◌, refl}
use native.Mathlib.Omega.{arith}
use throttled_py.Common.Float.{Float}
use throttled_py.Common.Int.{ℤ, pos, negsuc, pos_part, neg_part, ◌≤ℤ◌, leb_ℤ, sub_ℕ}

abbrev pub of_int : ℤ → ℤ
of_int (pos n) = pos (1000 * n)
of_int (negsuc n) = negsuc (1000 * n + 999)

abbrev pub plus : ℤ → ℤ → ℤ
plus a b = sub_ℕ (pos_part a + pos_part b) (neg_part a + neg_part b)

abbrev pub minus : ℤ → ℤ → ℤ
minus a b = sub_ℕ (pos_part a + neg_part b) (neg_part a + pos_part b)

abbrev pub times : ℤ → ℤ → ℤ
times (pos m) (pos n) = pos (m * n / 1000)
times (pos m) (negsuc n) = sub_ℕ 0 (m * suc n / 1000)
times (negsuc m) (pos n) = sub_ℕ 0 (suc m * n / 1000)
times (negsuc m) (negsuc n) = pos (suc m * suc n / 1000)

abbrev pub over : ℤ → ℤ → ℤ
over (pos m) (pos n) = pos (m * 1000 / n)
over (pos m) (negsuc n) = sub_ℕ 0 (m * 1000 / suc n)
over (negsuc m) (pos n) = sub_ℕ 0 (suc m * 1000 / n)
over (negsuc m) (negsuc n) = pos (suc m * 1000 / suc n)

abbrev pub floor : ℤ → ℤ
floor (pos n) = pos (n / 1000)
floor (negsuc n) = negsuc (n / 1000)

abbrev pub ceil : ℤ → ℤ
ceil (pos n) = pos ((n + 999) / 1000)
ceil (negsuc n) = sub_ℕ 0 (suc n / 1000)

pub le_trans : (a b c : ℤ) → leb_ℤ a b ≡ true → leb_ℤ b c ≡ true → leb_ℤ a c ≡ true
le_trans a b c h k = ground arith

pub le_refl : (a : ℤ) → leb_ℤ a a ≡ true
le_refl a = ground arith

pub le_total : (a b : ℤ) → leb_ℤ a b ≡ false → leb_ℤ b a ≡ true
le_total a b h = ground arith

pub of_int_mono : (a b : ℤ) → a ≤ℤ b → leb_ℤ (of_int a) (of_int b) ≡ true
of_int_mono a b h = ground arith

pub minus-le-zero : (a b : ℤ) → leb_ℤ a b ≡ true → leb_ℤ (minus a b) (pos 0) ≡ true
minus-le-zero a b h = ground arith

pub minus-pos : (a b : ℤ) → leb_ℤ a b ≡ false → leb_ℤ (minus a b) (pos 0) ≡ false
minus-pos a b h = ground arith

pub times-nonneg :
    (a b : ℤ) → leb_ℤ (pos 0) a ≡ true → leb_ℤ (pos 0) b ≡ true → leb_ℤ (pos 0) (times a b) ≡ true
times-nonneg (pos a) (pos b) h k = ground arith
times-nonneg (pos a) (negsuc b) h k = ground arith
times-nonneg (negsuc a) b h k = ground arith

mul_mono : (a b c : ℕ) → a ≤ b → a * c ≤ b * c
mul_mono a b c h = grind arith

pub times_mono :
    (a b c : ℤ) → leb_ℤ a b ≡ true → leb_ℤ (pos 0) c ≡ true → leb_ℤ (times a c) (times b c) ≡ true
times_mono (pos a) (pos b) (pos c) h k = ground (arith, mul_mono a b c)
times_mono (negsuc a) (pos b) (pos c) h k = ground arith
times_mono (negsuc a) (negsuc b) (pos c) h k = ground (arith, mul_mono (suc b) (suc a) c)
times_mono (pos a) (negsuc b) c h k = ground arith
times_mono (pos a) (pos b) (negsuc c) h k = ground arith
times_mono (negsuc a) b (negsuc c) h k = ground arith

pub over-nonneg :
    (a b : ℤ) → leb_ℤ (pos 0) a ≡ true → leb_ℤ (pos 0) b ≡ true → leb_ℤ (pos 0) (over a b) ≡ true
over-nonneg (pos a) (pos b) h k = ground arith
over-nonneg (pos a) (negsuc b) h k = ground arith
over-nonneg (negsuc a) b h k = ground arith

pub floor_mono : (a b : ℤ) → leb_ℤ a b ≡ true → floor a ≤ℤ floor b
floor_mono a b h = ground arith

pub ceil_mono : (a b : ℤ) → leb_ℤ a b ≡ true → ceil a ≤ℤ ceil b
ceil_mono a b h = ground arith

pub le-ceil : (a : ℤ) → leb_ℤ a (of_int (ceil a)) ≡ true
le-ceil (pos n) = ground arith
le-ceil (negsuc n) = ground arith

pub ceil-pos : (a : ℤ) → leb_ℤ a (pos 0) ≡ false → pos 1 ≤ℤ ceil a
ceil-pos a h = ground arith

instance abbrev pub fixed : Float
fixed = record {
  Real = ℤ;
  of_int = of_int;
  plus = plus;
  minus = minus;
  times = times;
  over = over;
  le = leb_ℤ;
  floor = floor;
  ceil = ceil;
  le_refl = le_refl;
  le_trans = le_trans;
  le_total = le_total;
  of_int_mono = of_int_mono;
  minus-le-zero = minus-le-zero;
  minus-pos = minus-pos;
  times-nonneg = times-nonneg;
  times_mono = times_mono;
  over-nonneg = over-nonneg;
  floor_mono = floor_mono;
  floor-of_int_zero = refl;
  ceil_mono = ceil_mono;
  le-ceil = le-ceil;
  ceil-of_int_zero = refl;
  ceil-pos = ceil-pos;
}

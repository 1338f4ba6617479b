-- ===== src/Common/Decimal.antt =====
-- The decimal text of a number: it consists of digits, and no two numbers share it.
use Prim.Native.Nat.{ℕ, zero, suc, ◌+◌, ◌-◌, ◌*◌, ◌/◌, ◌%◌, ◌≤◌}
use mathlib.Core.List.{[], ◌∷◌, ◌++◌}
use mathlib.Core.Logic.{inl, inr}
use mathlib.Core.Path.{◌≡◌, refl, sym, ap, ◌∙◌}
use native.Mathlib.Omega.{arith}
use throttled_py.Common.Tests.{ltb, Bool-cases}
use throttled_py.Common.Text.{Text, decimal, digits_onto}

-- Every character of a text has a property.
abbrev pub All {ℓ} : (ℕ → Type ℓ) → Text → Type ℓ
All P [] = Unit
All P (c ∷ t) = P c × All P t

pub All-append {ℓ} : (P : ℕ → Type ℓ) (s t : Text) → All P s → All P t → All P (s ++ t)
All-append P [] t h k = k
All-append P (c ∷ s) t h k = (h.0, All-append P s t h.1 k)

pub All-map {ℓ κ} :
    (P : ℕ → Type ℓ) (Q : ℕ → Type κ) (f : (c : ℕ) → P c → Q c) (t : Text) → All P t → All Q t
All-map P Q f [] h = tt
All-map P Q f (c ∷ t) h = (f c h.0, All-map P Q f t h.1)

abbrev pub IsDigit : ℕ → Type 0
IsDigit c = (48 ≤ c) × (c ≤ 57)

-- A text that begins with a digit.
pub record Led (t : Text) : Type 0 where
  pub first : ℕ
  pub rest : Text
  pub digit : IsDigit first
  pub split : t ≡ first ∷ rest

digits_onto-All :
    (fuel n : ℕ) (rest : Text) → n ≤ fuel → All IsDigit rest → All IsDigit (digits_onto fuel n rest)
unfolding digits_onto
digits_onto-All zero n rest h d = ((omega arith, omega arith), d)
digits_onto-All (suc fuel) n rest h d = elim (Bool-cases (ltb n 10)) [
  | inl small ↦ rw small ((omega arith, ground arith), d)
  | inr big ↦ rw big (
      digits_onto-All fuel (n / 10) ((48 + n % 10) ∷ rest) (ground arith)
        ((omega arith, omega arith), d))
]

pub decimal-All : (n : ℕ) → All IsDigit (decimal n)
unfolding decimal
decimal-All n = digits_onto-All n n [] (omega arith) tt

-- the value of digits behind those that make up `acc`
unfoldable pub value_from : ℕ → Text → ℕ
value_from acc [] = acc
value_from acc (c ∷ t) = value_from (acc * 10 + (c - 48)) t

digits_onto-value :
    (fuel n : ℕ) (rest : Text)
    → n ≤ fuel
    → value_from 0 (digits_onto fuel n rest) ≡ value_from n rest
unfolding digits_onto value_from
digits_onto-value zero n rest h = ap (λ v. value_from v rest) (omega arith)
digits_onto-value (suc fuel) n rest h = elim (Bool-cases (ltb n 10)) [
  | inl small ↦ rw small (ap (λ v. value_from v rest) (omega arith))
  | inr big ↦ rw big (
      digits_onto-value fuel (n / 10) ((48 + n % 10) ∷ rest) (ground arith)
      ∙ ap (λ v. value_from v rest) (omega arith))
]

pub decimal-value : (n : ℕ) → value_from 0 (decimal n) ≡ n
unfolding decimal value_from
decimal-value n = digits_onto-value n n [] (omega arith)

pub decimal-injective : (m n : ℕ) → decimal m ≡ decimal n → m ≡ n
decimal-injective m n h = sym (decimal-value m) ∙ ap (value_from 0) h ∙ decimal-value n

digits_onto-Led : (fuel n : ℕ) (rest : Text) → n ≤ fuel → Led (digits_onto fuel n rest)
unfolding digits_onto
digits_onto-Led zero n rest h = record {
  first = 48 + n;
  rest = rest;
  digit = (omega arith, omega arith);
  split = refl;
}
digits_onto-Led (suc fuel) n rest h = elim (Bool-cases (ltb n 10)) [
  | inl small ↦ record {
    first = 48 + n;
    rest = rest;
    digit = (omega arith, ground arith);
    split = rw small;
  }
  | inr big ↦ rw big (digits_onto-Led fuel (n / 10) ((48 + n % 10) ∷ rest) (ground arith))
]

pub decimal-Led : (n : ℕ) → Led (decimal n)
unfolding decimal
decimal-Led n = digits_onto-Led n n [] (omega arith)

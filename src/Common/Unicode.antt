-- ===== src/Common/Unicode.antt =====
-- The Unicode database of the interpreter, as far as the program asks it: a parameter of the model,
-- with what is documented of the ASCII characters.
use Prim.Native.Nat.{ℕ, ◌+◌, ◌-◌, ◌<◌}
use mathlib.Core.Bool.{Bool, false, ◌&&◌, ◌||◌}
use mathlib.Core.List.{[], ◌∷◌, ◌++◌}
use mathlib.Core.Option.{Option, none, some}
use mathlib.Core.Path.{◌≡◌, refl}
use throttled_py.Common.Tests.{◌==◌, leb, if◌then◌else◌}
use throttled_py.Common.Text.{Text}

-- `str.isspace`, `\d` with its value, and `str.lower`, on the characters below 128
abbrev pub ascii_space : ℕ → Bool
ascii_space c = (leb 9 c && leb c 13) || (leb 28 c && leb c 32)

abbrev pub ascii_digit : ℕ → Option ℕ
ascii_digit c = if leb 48 c && leb c 57 then some (c - 48) else none

abbrev pub ascii_lower : ℕ → ℕ
ascii_lower c = if leb 65 c && leb c 90 then c + 32 else c

pub record Unicode : Type 0 where
  pub is_space : ℕ → Bool
  pub digit : ℕ → Option ℕ
  pub lower : ℕ → Text
  pub is_space_ascii : (c : ℕ) → c < 128 → is_space c ≡ ascii_space c
  pub digit_ascii : (c : ℕ) → c < 128 → digit c ≡ ascii_digit c
  pub lower_ascii : (c : ℕ) → c < 128 → lower c ≡ ascii_lower c ∷ []

-- The database of a world with no other characters.
instance abbrev pub ascii : Unicode
ascii = record {
  is_space = ascii_space;
  digit = ascii_digit;
  lower = λ c. ascii_lower c ∷ [];
  is_space_ascii = λ c h. refl;
  digit_ascii = λ c h. refl;
  lower_ascii = λ c h. refl;
}

-- `text.endswith(c)`
unfoldable pub ends_with : ℕ → Text → Bool
ends_with c [] = false
ends_with c (d ∷ []) = d == c
ends_with c (d ∷ e ∷ t) = ends_with c (e ∷ t)

-- `text.startswith(c)`
unfoldable pub starts_with : ℕ → Text → Bool
starts_with c [] = false
starts_with c (d ∷ t) = d == c

module _ ⦃U : Unicode⦄ where
  unfoldable pub lstrip : Text → Text
  lstrip [] = []
  lstrip (c ∷ t) = if U.is_space c then lstrip t else c ∷ t

  cons_stripped : ℕ → Text → Text
  cons_stripped c [] = if U.is_space c then [] else c ∷ []
  cons_stripped c (d ∷ t) = c ∷ d ∷ t

  -- A text less the white space at its end.
  unfoldable pub rstrip : Text → Text
  unfolding cons_stripped
  rstrip [] = []
  rstrip (c ∷ t) = cons_stripped c (rstrip t)

  -- `text.strip()`
  unfoldable pub strip : Text → Text
  unfolding lstrip rstrip
  strip t = rstrip (lstrip t)

  -- `text.lower()`
  unfoldable pub to_lower : Text → Text
  to_lower [] = []
  to_lower (c ∷ t) = U.lower c ++ to_lower t

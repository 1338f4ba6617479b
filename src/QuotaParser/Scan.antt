-- ===== src/QuotaParser/Scan.antt =====
-- The scanner of quota expressions on texts of known shape.
use throttled_py.Common.{
  ℕ, ◌+◌, ◌*◌, ◌-◌, ◌≤◌, ◌<◌, ◌≡◌, refl, ◌∙◌, Bool, true, false, none, some, [], ◌∷◌, ◌++◌, arith,
}
use throttled_py.Common.Decimal.{All, IsDigit, Led, value_from}
use throttled_py.Common.Text.{Text}
use throttled_py.Common.Unicode.{
  Unicode, ascii_space, ascii_digit, ascii_lower, lstrip, rstrip, strip, to_lower,
}
use throttled_py.QuotaParser.{span, some_of, is_digit, digit_value, read_digits, int_of_digits}

-- The text is empty, or its first character fails a test.
abbrev pub Stops : (ℕ → Bool) → Text → Type 0
Stops p [] = Unit
Stops p (c ∷ t) = p c ≡ false

pub span-append :
    (p : ℕ → Bool) (s rest : Text)
    → All (λ c. p c ≡ true) s
    → Stops p rest
    → span p (s ++ rest) ≡ (s, rest)
unfolding span
span-append p [] [] h e = refl
span-append p [] (c ∷ rest) h e = rw e
span-append p (c ∷ s) rest h e = rw h.0 (rw (span-append p s rest h.1 e))

pub some_of-append :
    (p : ℕ → Bool) (c : ℕ) (s rest : Text)
    → All (λ c. p c ≡ true) (c ∷ s)
    → Stops p rest
    → some_of p (c ∷ s ++ rest) ≡ some (c ∷ s, rest)
unfolding some_of
some_of-append p c s rest h e = rw (span-append p (c ∷ s) rest h e) refl

module _ ⦃U : Unicode⦄ where
  pub solid : (c : ℕ) → c < 128 → ascii_space c ≡ false → U.is_space c ≡ false
  solid c h e = U.is_space_ascii c h ∙ e

  pub blank : U.is_space b' ' ≡ true
  blank = U.is_space_ascii b' ' (omega arith)

  pub digit-solid : (c : ℕ) → IsDigit c → U.is_space c ≡ false
  digit-solid c h = solid c (omega arith) (ground arith)

  pub digit_read : (c : ℕ) → IsDigit c → U.digit c ≡ some (c - 48)
  digit_read c h = U.digit_ascii c (omega arith) ∙ ground arith

  pub digit-is_digit : (c : ℕ) → IsDigit c → is_digit c ≡ true
  digit-is_digit c h = rw (digit_read c h, is_digit)

  pub not_digit : (c : ℕ) → c < 128 → ascii_digit c ≡ none → is_digit c ≡ false
  not_digit c h e = rw (U.digit_ascii c h ∙ e, is_digit)

  pub lstrip-solid : (c : ℕ) (t : Text) → U.is_space c ≡ false → lstrip (c ∷ t) ≡ c ∷ t
  unfolding lstrip
  lstrip-solid c t e = rw e

  pub lstrip-Led : (t rest : Text) → Led t → lstrip (t ++ rest) ≡ t ++ rest
  lstrip-Led t rest l =
      rw l.split (lstrip-solid l.first (l.rest ++ rest) (digit-solid l.first l.digit))

  read_digits-value : (acc : ℕ) (t : Text) → All IsDigit t → read_digits acc t ≡ value_from acc t
  unfolding read_digits value_from
  read_digits-value acc [] h = refl
  read_digits-value acc (c ∷ t) h =
      rw (digit_read c h.0, digit_value) (read_digits-value (acc * 10 + (c - 48)) t h.1)

  pub int_of_digits-value : (t : Text) → All IsDigit t → int_of_digits t ≡ value_from 0 t
  int_of_digits-value t h = read_digits-value 0 t h

  pub to_lower-id : (t : Text) → All (λ c. (b'a' ≤ c) × (c ≤ b'z')) t → to_lower t ≡ t
  unfolding to_lower
  to_lower-id [] h = refl
  to_lower-id (c ∷ t) h =
      let kept : ascii_lower c ≡ c = ground (arith, h.0) in
      rw (U.lower_ascii c (omega (arith, h.0)), kept, to_lower-id t h.1)

  -- The last character of a text is no white space.
  abbrev pub EndsSolid : Text → Type 0
  EndsSolid [] = ⊥
  EndsSolid (c ∷ []) = U.is_space c ≡ false
  EndsSolid (c ∷ d ∷ t) = EndsSolid (d ∷ t)

  rstrip-id : (t : Text) → EndsSolid t → rstrip t ≡ t
  unfolding rstrip
  rstrip-id [] h = elim h [ ]
  rstrip-id (c ∷ []) h = rw h
  rstrip-id (c ∷ d ∷ t) h = rw (rstrip-id (d ∷ t) h)

  pub EndsSolid-append : (s t : Text) → EndsSolid t → EndsSolid (s ++ t)
  EndsSolid-append [] t h = h
  EndsSolid-append (c ∷ []) [] h = elim h [ ]
  EndsSolid-append (c ∷ []) (d ∷ t) h = h
  EndsSolid-append (c ∷ d ∷ s) t h = EndsSolid-append (d ∷ s) t h

  pub digits-EndsSolid : (c : ℕ) (t : Text) → All IsDigit (c ∷ t) → EndsSolid (c ∷ t)
  digits-EndsSolid c [] h = digit-solid c h.0
  digits-EndsSolid c (d ∷ t) h = digits-EndsSolid d t h.1

  pub strip-id :
      (c : ℕ) (t : Text) → U.is_space c ≡ false → EndsSolid (c ∷ t) → strip (c ∷ t) ≡ c ∷ t
  unfolding strip
  strip-id c t e h = rw (lstrip-solid c t e) (rstrip-id (c ∷ t) h)

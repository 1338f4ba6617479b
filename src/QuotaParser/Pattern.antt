-- ===== src/QuotaParser/Pattern.antt =====
-- throttled/rate_limiter/quota_parser.py: `_RATE_PATTERN`. Its matching is a scan from left to right:
-- no part of the pattern can give back characters that the next part could begin with.
use throttled_py.Common.{
  ℕ, ◌+◌, Bool, true, false, ◌&&◌, ◌||◌, Option, none, some, [], ◌∷◌, ◌==◌, leb, if◌then◌else◌,
}
use throttled_py.Common.Text.{Text, codes}
use throttled_py.Common.Unicode.{Unicode, lstrip}
use throttled_py.Registry.{is_empty}

-- The longest beginning of a text whose characters pass the test, and the rest.
unfoldable pub span : (ℕ → Bool) → Text → Text × Text
span p [] = ([], [])
span p (c ∷ t) = let rest = span p t in if p c then (c ∷ rest.0, rest.1) else ([], c ∷ t)

non_empty : Text × Text → Option (Text × Text)
non_empty ([], rest) = none
non_empty (c ∷ s, rest) = some (c ∷ s, rest)

-- `p+` of a pattern
unfoldable pub some_of : (ℕ → Bool) → Text → Option (Text × Text)
unfolding span non_empty
some_of p t = non_empty (span p t)

-- `[a-zA-Z]` under IGNORECASE: the letters of ASCII, and the four that fold into them
abbrev pub is_letter : ℕ → Bool
is_letter c =
    (leb b'a' c && leb c b'z')
    || (leb b'A' c && leb c b'Z')
    || c == 0x130
    || c == 0x131
    || c == 0x17f
    || c == 0x212a

-- A small letter of a pattern under IGNORECASE; `ſ` folds into `s`.
abbrev same_letter : ℕ → ℕ → Bool
same_letter letter c = c == letter || c + 32 == letter || (letter == b's' && c == 0x17f)

-- the rest of a text behind a word of the pattern
unfoldable pub after_word : Text → Text → Option Text
after_word [] t = some t
after_word (w ∷ ws) [] = none
after_word (w ∷ ws) (c ∷ t) = if same_letter w c then after_word ws t else none

abbrev pub then_ {ℓ} : {A B : Type ℓ} → Option A → (A → Option B) → Option B
then_ none f = none
then_ (some a) f = f a

module _ ⦃U : Unicode⦄ where
  abbrev pub is_digit : ℕ → Bool
  is_digit c = elim (U.digit c) [ none ↦ false | some d ↦ true ]

  abbrev pub digit_value : ℕ → ℕ
  digit_value c = elim (U.digit c) [ none ↦ 0 | some d ↦ d ]

  -- the groups of a match of `_RATE_PATTERN`: limit, slash_unit or per_unit, burst
  pub record Match : Type 0 where
    pub limit : Text
    pub unit : Text
    pub burst : Option Text

  -- `/\s*(?P<slash_unit>[a-zA-Z]+)`
  unfoldable pub slash_unit : Text → Option (Text × Text)
  unfolding lstrip some_of
  slash_unit [] = none
  slash_unit (c ∷ t) = if c == b'/' then some_of is_letter (lstrip t) else none

  -- `per\s+(?P<per_unit>[a-zA-Z]+)`
  unfoldable pub per_unit : Text → Option (Text × Text)
  unfolding after_word some_of
  per_unit t =
      then_ (after_word (codes "per") t)
        λ r. then_ (some_of U.is_space r) λ s. some_of is_letter s.1

  unfoldable pub match_unit : Text → Option (Text × Text)
  unfolding slash_unit per_unit
  match_unit t = elim (slash_unit t) [ none ↦ per_unit t | some m ↦ some m ]

  -- `\s*$`
  unfoldable pub at_end : Text → Bool
  unfolding lstrip
  at_end t = is_empty (lstrip t)

  -- `\s+burst\s+(?P<burst>\d+)\s*$`
  unfoldable pub burst_tail : Text → Option Text
  unfolding after_word some_of at_end
  burst_tail t = then_ (some_of U.is_space t) λ s. then_ (after_word (codes "burst") s.1) λ r.
      then_ (some_of U.is_space r)
        λ s'. then_ (some_of is_digit s'.1) λ d. if at_end d.1 then some d.0 else none

  -- the optional group of the burst, and the end
  unfoldable pub match_tail : Text → Text → Text → Option Text → Option Match
  unfolding at_end
  match_tail limit unit rest (some b) = some (record { limit = limit; unit = unit; burst = some b })
  match_tail limit unit rest none =
      if at_end rest then some (record { limit = limit; unit = unit; burst = none }) else none

  -- `_RATE_PATTERN.match`
  unfoldable pub match_rate : Text → Option Match
  unfolding lstrip some_of match_unit burst_tail match_tail
  match_rate token =
      then_ (some_of is_digit (lstrip token))
        λ d. then_ (match_unit (lstrip d.1)) λ u. match_tail d.0 u.0 u.1 (burst_tail u.1)

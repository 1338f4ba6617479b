-- ===== src/QuotaParser/Rendered.antt =====
-- Lists of rules that are written out are read back.
use mathlib.Core.List.{append_assoc, append-nil}
use throttled_py.Action.{ok, bind}
use throttled_py.Common.{
  ℕ, ◌<◌, ◌≡◌, refl, ap, ◌∙◌, false, Option, none, some, List, [], ◌∷◌, ◌++◌, ◌==◌, arith,
}
use throttled_py.Common.Decimal.{
  All, All-append, All-map, IsDigit, decimal-All, decimal-value, decimal-Led,
}
use throttled_py.Common.Float.{Float}
use throttled_py.Common.Text.{Text, codes, decimal, str_eq}
use throttled_py.Common.Unicode.{Unicode, strip}
use throttled_py.Dict.{lookup}
use throttled_py.Registry.{is_empty}
use throttled_py.QuotaParser.{
  CanonicalUnit, second, minute, hour, day, week, duration_of, parse_unit, int_of_digits,
  burst_value, rate_of, parse_rate_token, is_splitter, split_rules, tokens_of, parse_tokens, parse,
}
use throttled_py.QuotaParser.RoundTrip.{name, burst_text, text_of, burst_group, rule_matched}
use throttled_py.QuotaParser.Rules.{Rule, AllPositive, quotas_for, quota_of-rule}
use throttled_py.QuotaParser.Scan.{
  solid, digit-solid, int_of_digits-value, to_lower-id, EndsSolid, EndsSolid-append,
  digits-EndsSolid, strip-id,
}

-- The rules, one behind the other with a comma between them.
pub render : Rule → List Rule → Text
render r [] = text_of r
render r (next ∷ rs) = text_of r ++ b',' ∷ render next rs

module _ ⦃U : Unicode⦄ where
  name_parsed : (u : CanonicalUnit) → parse_unit (name u) ≡ ok u
  unfolding parse_unit lookup str_eq
  name_parsed second = rw (to_lower-id (name second) (omega arith), parse_unit)
  name_parsed minute = rw (to_lower-id (name minute) (omega arith), parse_unit)
  name_parsed hour = rw (to_lower-id (name hour) (omega arith), parse_unit)
  name_parsed day = rw (to_lower-id (name day) (omega arith), parse_unit)
  name_parsed week = rw (to_lower-id (name week) (omega arith), parse_unit)

  number_read : (n : ℕ) → int_of_digits (decimal n) ≡ n
  number_read n = int_of_digits-value (decimal n) (decimal-All n) ∙ decimal-value n

  burst_read_back : (burst : Option ℕ) → burst_value (burst_group burst) ≡ burst
  burst_read_back none = refl
  burst_read_back (some b) = ap some (number_read b)

  rule_read :
      (r : Rule)
      → 0 < r.limit
      → parse_rate_token (text_of r) ≡ ok (r.limit, duration_of r.unit, r.burst)
  unfolding parse_rate_token rate_of
  rule_read r h =
      let positive : (r.limit == 0) ≡ false = ground arith in
      rw (rule_matched r, parse_rate_token)
        (rw (number_read r.limit)
          (rw (positive, name_parsed r.unit, bind) (rw (burst_read_back r.burst))))

  split_one : (s : Text) → All (λ c. is_splitter c ≡ false) s → split_rules s ≡ s ∷ []
  unfolding split_rules
  split_one [] h = refl
  split_one (c ∷ s) h = rw (h.0, split_one s h.1)

  split_first :
      (s rest : Text)
      → All (λ c. is_splitter c ≡ false) s
      → split_rules (s ++ b',' ∷ rest) ≡ s ∷ split_rules rest
  unfolding split_rules
  split_first [] rest h = refl
  split_first (c ∷ s) rest h = rw (h.0, split_first s rest h.1)

  name-plain : (u : CanonicalUnit) → All (λ c. is_splitter c ≡ false) (name u)
  unfolding is_splitter
  name-plain second = (refl, (refl, (refl, (refl, (refl, (refl, tt))))))
  name-plain minute = (refl, (refl, (refl, (refl, (refl, (refl, tt))))))
  name-plain hour = (refl, (refl, (refl, (refl, tt))))
  name-plain day = (refl, (refl, (refl, tt)))
  name-plain week = (refl, (refl, (refl, (refl, tt))))

  digit-plain : (c : ℕ) → IsDigit c → is_splitter c ≡ false
  unfolding is_splitter
  digit-plain c h = ground arith

  decimal-plain : (n : ℕ) → All (λ c. is_splitter c ≡ false) (decimal n)
  decimal-plain n = All-map IsDigit _ digit-plain (decimal n) (decimal-All n)

  burst-plain : (burst : Option ℕ) → All (λ c. is_splitter c ≡ false) (burst_text burst)
  unfolding is_splitter
  burst-plain none = tt
  burst-plain (some b) =
      (refl, (refl, (refl, (refl, (refl, (refl, (refl, unfold is_splitter in decimal-plain b)))))))

  text-plain : (r : Rule) → All (λ c. is_splitter c ≡ false) (text_of r)
  unfolding is_splitter
  text-plain r =
      All-append (λ c. is_splitter c ≡ false) (decimal r.limit)
        (b'/' ∷ (name r.unit ++ burst_text r.burst)) (decimal-plain r.limit)
        (
          refl,
          All-append (λ c. is_splitter c ≡ false) (name r.unit) (burst_text r.burst)
              (name-plain r.unit) (burst-plain r.burst),
        )

  decimal-EndsSolid : (n : ℕ) → EndsSolid (decimal n)
  decimal-EndsSolid n =
      let l = decimal-Led n in
      rw l.split (digits-EndsSolid l.first l.rest (rw l.split at (decimal-All n)))

  name-EndsSolid : (u : CanonicalUnit) (burst : Option ℕ) → EndsSolid (name u ++ burst_text burst)
  name-EndsSolid second none = solid b'd' (omega arith) refl
  name-EndsSolid minute none = solid b'e' (omega arith) refl
  name-EndsSolid hour none = solid b'r' (omega arith) refl
  name-EndsSolid day none = solid b'y' (omega arith) refl
  name-EndsSolid week none = solid b'k' (omega arith) refl
  name-EndsSolid u (some b) =
      EndsSolid-append (name u) (burst_text (some b))
        (EndsSolid-append (codes " burst ") (decimal b) (decimal-EndsSolid b))

  text-EndsSolid : (r : Rule) → EndsSolid (text_of r)
  text-EndsSolid r =
      EndsSolid-append (decimal r.limit) (b'/' ∷ (name r.unit ++ burst_text r.burst)) (
        EndsSolid-append (b'/' ∷ []) (name r.unit ++ burst_text r.burst)
          (name-EndsSolid r.unit r.burst))

  strip_led :
      (n : ℕ) (rest : Text)
      → EndsSolid (decimal n ++ rest)
      → strip (decimal n ++ rest) ≡ decimal n ++ rest
  strip_led n rest h =
      let l = decimal-Led n in
      rw l.split (strip-id l.first (l.rest ++ rest) (digit-solid l.first l.digit) (rw l.split at h))

  pub strip-decimal : (n : ℕ) → strip (decimal n) ≡ decimal n
  strip-decimal n = rw append-nil at (strip_led n [] (rw append-nil (decimal-EndsSolid n)))

  full : (n : ℕ) (rest : Text) → is_empty (decimal n ++ rest) ≡ false
  full n rest = let l = decimal-Led n in rw l.split

  abbrev texts : List Rule → List Text
  texts [] = []
  texts (r ∷ rs) = text_of r ∷ texts rs

  rendered-split : (r : Rule) (rs : List Rule) → split_rules (render r rs) ≡ texts (r ∷ rs)
  unfolding render
  rendered-split r [] = split_one (text_of r) (text-plain r)
  rendered-split r (next ∷ rs) =
      split_first (text_of r) (render next rs) (text-plain r)
      ∙ ap (λ ts. text_of r ∷ ts) (rendered-split next rs)

  texts-kept : (rs : List Rule) → tokens_of (texts rs) ≡ texts rs
  unfolding tokens_of
  texts-kept [] = refl
  texts-kept (r ∷ rs) =
      let rest = b'/' ∷ (name r.unit ++ burst_text r.burst) in
      rw (strip_led r.limit rest (text-EndsSolid r)) (rw (full r.limit rest) (rw (texts-kept rs)))

  rendered_form :
      (r : Rule) (rs : List Rule) → (rest : Text) × (render r rs ≡ decimal r.limit ++ rest)
  unfolding render
  rendered_form r [] = (b'/' ∷ (name r.unit ++ burst_text r.burst), refl)
  rendered_form r (next ∷ rs) = (
    b'/' ∷ (name r.unit ++ burst_text r.burst) ++ b',' ∷ render next rs,
    append_assoc (decimal r.limit) (b'/' ∷ (name r.unit ++ burst_text r.burst))
        (b',' ∷ render next rs),
  )

  rendered-EndsSolid : (r : Rule) (rs : List Rule) → EndsSolid (render r rs)
  unfolding render
  rendered-EndsSolid r [] = text-EndsSolid r
  rendered-EndsSolid r (next ∷ rs) =
      EndsSolid-append (text_of r) (b',' ∷ render next rs)
        (EndsSolid-append (b',' ∷ []) (render next rs) (rendered-EndsSolid next rs))

  rendered-strip : (r : Rule) (rs : List Rule) → strip (render r rs) ≡ render r rs
  rendered-strip r rs =
      let (rest, e) = rendered_form r rs in
      rw e (strip_led r.limit rest (rw e at (rendered-EndsSolid r rs)))

  rendered-full : (r : Rule) (rs : List Rule) → is_empty (render r rs) ≡ false
  rendered-full r rs = let (rest, e) = rendered_form r rs in rw e (full r.limit rest)

module _ ⦃F : Float⦄ ⦃U : Unicode⦄ where
  texts_parsed : (rs : List Rule) → AllPositive rs → parse_tokens (texts rs) ≡ ok (quotas_for rs)
  unfolding parse_tokens
  texts_parsed [] h = refl
  texts_parsed (r ∷ rs) h =
      rw (rule_read r h.0, bind)
        (rw (quota_of-rule r.limit r.unit r.burst h.0, bind) (rw (texts_parsed rs h.1, bind)))

  -- The text of one or more rules with positive limits is parsed to the quotas of these rules.
  pub parse-render :
      (r : Rule) (rs : List Rule)
      → AllPositive (r ∷ rs)
      → parse (render r rs) ≡ ok (quotas_for (r ∷ rs))
  unfolding parse
  parse-render r rs h = rw (rendered-strip r rs) (
      rw (rendered-full r rs)
        (rw (rendered-split r rs) (rw (texts-kept (r ∷ rs)) (texts_parsed (r ∷ rs) h))))

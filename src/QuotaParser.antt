-- ===== src/QuotaParser.antt =====
-- throttled/rate_limiter/quota_parser.py: quota expressions such as `100/s burst 200, 5 per minute`.
-- Numbers are as long as `int` reads them, and in the range of a float.
mod Pattern
pub mod Rules
pub mod Scan
pub mod RoundTrip
pub mod Rendered
unfoldable pub use Pattern.*
use throttled_py.Action.{Outcome, ok, raised, data_error, bind}
use throttled_py.Common.{
  ℕ, ◌+◌, ◌-◌, ◌*◌, Bool, true, false, not, ◌&&◌, ◌||◌, Option, none, some, List, [], ◌∷◌, ◌==◌,
  leb, if◌then◌else◌,
}
use throttled_py.Common.Float.{Float}
use throttled_py.Common.Text.{Text, codes}
use throttled_py.Common.Unicode.{Unicode, lstrip, strip, to_lower}
use throttled_py.Dict.{Dict, lookup}
use throttled_py.Quota.{Quota, seconds, per_duration}
use throttled_py.Registry.{is_empty}

-- the keys of `_CANONICAL_UNIT_TO_DURATION`
pub data CanonicalUnit : Type 0 where
  second minute hour day week : CanonicalUnit

-- `_CANONICAL_UNIT_TO_DURATION`
abbrev pub duration_of : CanonicalUnit → ℕ
duration_of second = seconds 1
duration_of minute = seconds 60
duration_of hour = seconds 3_600
duration_of day = seconds 86_400
duration_of week = seconds 604_800

-- `_UNIT_ALIAS_TO_CANONICAL`
unfoldable pub unit_aliases : Dict CanonicalUnit
unit_aliases =
    (codes "s", second)
    ∷ (codes "sec", second)
    ∷ (codes "secs", second)
    ∷ (codes "second", second)
    ∷ (codes "seconds", second)
    ∷ (codes "m", minute)
    ∷ (codes "min", minute)
    ∷ (codes "mins", minute)
    ∷ (codes "minute", minute)
    ∷ (codes "minutes", minute)
    ∷ (codes "h", hour)
    ∷ (codes "hr", hour)
    ∷ (codes "hrs", hour)
    ∷ (codes "hour", hour)
    ∷ (codes "hours", hour)
    ∷ (codes "d", day)
    ∷ (codes "day", day)
    ∷ (codes "days", day)
    ∷ (codes "w", week)
    ∷ (codes "wk", week)
    ∷ (codes "wks", week)
    ∷ (codes "week", week)
    ∷ (codes "weeks", week)
    ∷ []

-- `_RULE_SPLITTER.split`
unfoldable pub is_splitter : ℕ → Bool
is_splitter c = c == b';' || c == b',' || c == b'|'

cons_first : ℕ → List Text → List Text
cons_first c [] = (c ∷ []) ∷ []
cons_first c (t ∷ ts) = (c ∷ t) ∷ ts

unfoldable pub split_rules : Text → List Text
unfolding is_splitter cons_first
split_rules [] = [] ∷ []
split_rules (c ∷ t) =
    let rest = split_rules t in if is_splitter c then [] ∷ rest else cons_first c rest

module _ ⦃U : Unicode⦄ where
  -- `int` of digits
  unfoldable pub read_digits : ℕ → Text → ℕ
  read_digits acc [] = acc
  read_digits acc (c ∷ t) = read_digits (acc * 10 + digit_value c) t

  abbrev pub int_of_digits : Text → ℕ
  int_of_digits t = read_digits 0 t

  unfoldable pub parse_unit : Text → Outcome CanonicalUnit
  unfolding unit_aliases to_lower
  parse_unit raw = elim (lookup (to_lower raw) unit_aliases) [
    | none ↦ raised data_error
    | some u ↦ ok u
  ]

  -- `int(burst_expr) if burst_expr else None`
  abbrev pub burst_value : Option Text → Option ℕ
  burst_value none = none
  burst_value (some b) = some (int_of_digits b)

  -- what `_parse_rate_token` makes of a match
  unfoldable pub rate_of : Match → Outcome (ℕ × ℕ × Option ℕ)
  unfolding parse_unit read_digits
  rate_of m =
      let limit = int_of_digits m.limit in
      if limit == 0
      then raised data_error
      else bind (parse_unit m.unit) λ u. ok (limit, duration_of u, burst_value m.burst)

  unfoldable pub parse_rate_token : Text → Outcome (ℕ × ℕ × Option ℕ)
  unfolding match_rate rate_of
  parse_rate_token token = elim (match_rate token) [ none ↦ raised data_error | some m ↦ rate_of m ]

  -- `[token for token in tokens if token]`, of the stripped tokens
  unfoldable pub tokens_of : List Text → List Text
  unfolding strip
  tokens_of [] = []
  tokens_of (t ∷ ts) =
      let rest = tokens_of ts in if is_empty (strip t) then rest else strip t ∷ rest

-- `limit if burst is None else burst`
abbrev pub burst_or : ℕ → Option ℕ → ℕ
burst_or limit none = limit
burst_or limit (some burst) = burst

module _ ⦃F : Float⦄ where
  unfoldable pub quota_of : ℕ × ℕ × Option ℕ → Outcome Quota
  quota_of (limit, duration, burst) = per_duration duration limit (some (burst_or limit burst))

module _ ⦃F : Float⦄ ⦃U : Unicode⦄ where
  -- the loop of `parse`
  unfoldable pub parse_tokens : List Text → Outcome (List Quota)
  unfolding parse_rate_token quota_of
  parse_tokens [] = ok []
  parse_tokens (token ∷ tokens) =
      let rest = parse_tokens tokens in
      bind (parse_rate_token token)
        λ rate. bind (quota_of rate) λ q. bind rest λ quotas. ok (q ∷ quotas)

  -- `parse`, on a string
  unfoldable pub parse : Text → Outcome (List Quota)
  unfolding strip split_rules tokens_of parse_tokens
  parse quota_expr =
      let expression = strip quota_expr in
      let tokens = tokens_of (split_rules expression) in
      if is_empty expression || is_empty tokens then raised data_error else parse_tokens tokens

-- ===== src/QuotaParser/Rules.antt =====
-- What a quota expression can be parsed to: the quotas of a list of rules.
use throttled_py.Action.{Outcome, ok, raised, data_error, bind}
use throttled_py.Common.{
  ℕ, ◌<◌, ◌≡◌, ◌⊎◌, inl, inr, refl, ◌∙◌, false, ◌||◌, Option, List, [], ◌∷◌, ◌==◌, Bool-cases,
  Option-cases, arith,
}
use throttled_py.Common.Float.{Float, of_int, over}
use throttled_py.Common.Int.{pos}
use throttled_py.Common.Text.{Text}
use throttled_py.Common.Unicode.{Unicode, strip, to_lower}
use throttled_py.Dict.{lookup}
use throttled_py.Quota.{Quota, per_duration}
use throttled_py.QuotaParser.{
  CanonicalUnit, second, minute, hour, day, week, duration_of, Match, int_of_digits, burst_value,
  match_rate, unit_aliases, parse_unit, rate_of, parse_rate_token, tokens_of, split_rules, burst_or,
  quota_of, parse_tokens, parse,
}
use throttled_py.Registry.{is_empty}

pub record Rule : Type 0 where
  pub limit : ℕ
  pub unit : CanonicalUnit
  pub burst : Option ℕ

abbrev pub seconds_of : CanonicalUnit → ℕ
seconds_of second = 1
seconds_of minute = 60
seconds_of hour = 3_600
seconds_of day = 86_400
seconds_of week = 604_800

abbrev pub AllPositive : List Rule → Type 0
AllPositive [] = Unit
AllPositive (r ∷ rs) = (0 < r.limit) × AllPositive rs

module _ ⦃F : Float⦄ where
  -- The quota that a rule stands for: the burst is the limit unless it is given.
  unfoldable pub quota_for : Rule → Quota
  quota_for r = record {
    rate = record { period = duration_of r.unit; limit = r.limit };
    burst = burst_or r.limit r.burst;
    period_sec = seconds_of r.unit;
    emission_interval = over (of_int (pos (seconds_of r.unit))) (of_int (pos r.limit));
    fill_rate = over (of_int (pos r.limit)) (of_int (pos (seconds_of r.unit)));
  }

  abbrev pub quotas_for : List Rule → List Quota
  quotas_for [] = []
  quotas_for (r ∷ rs) = quota_for r ∷ quotas_for rs

  pub quota_of-rule :
      (limit : ℕ) (u : CanonicalUnit) (burst : Option ℕ)
      → 0 < limit
      → quota_of (limit, duration_of u, burst)
        ≡ ok (quota_for (record { limit = limit; unit = u; burst = burst }))
  unfolding quota_of per_duration quota_for
  quota_of-rule limit second burst h = ground arith
  quota_of-rule limit minute burst h = ground arith
  quota_of-rule limit hour burst h = ground arith
  quota_of-rule limit day burst h = ground arith
  quota_of-rule limit week burst h = ground arith

module _ ⦃U : Unicode⦄ where
  abbrev RateResult : Outcome (ℕ × ℕ × Option ℕ) → Type 0
  RateResult o =
      (o ≡ raised data_error)
      ⊎ ((limit : ℕ) × (u : CanonicalUnit) × (burst : Option ℕ) × (0 < limit)
          × (o ≡ ok (limit, duration_of u, burst)))

  parse_unit-cases :
      (raw : Text)
      → (parse_unit raw ≡ raised data_error) ⊎ ((u : CanonicalUnit) × (parse_unit raw ≡ ok u))
  unfolding parse_unit
  parse_unit-cases raw = elim (Option-cases (lookup (to_lower raw) unit_aliases)) [
    | inl e ↦ inl (rw (e, parse_unit))
    | inr (u, e) ↦ inr (u, rw (e, parse_unit))
  ]

  rate_of-cases : (m : Match) → RateResult (rate_of m)
  unfolding rate_of
  rate_of-cases m = elim (Bool-cases (int_of_digits m.limit == 0)) [
    | inl e ↦ inl (rw e)
    | inr e ↦ elim (parse_unit-cases m.unit) [
      | inl bad ↦ inl (rw (e, bad, bind))
      | inr (u, good) ↦
          inr (int_of_digits m.limit, u, burst_value m.burst, ground arith, rw (e, good, bind))
    ]
  ]

  rate_token-cases : (token : Text) → RateResult (parse_rate_token token)
  unfolding parse_rate_token
  rate_token-cases token = elim (Option-cases (match_rate token)) [
    | inl e ↦ inl (rw (e, parse_rate_token))
    | inr (m, e) ↦ rw (e, parse_rate_token) (rate_of-cases m)
  ]

module _ ⦃F : Float⦄ ⦃U : Unicode⦄ where
  abbrev QuotasResult : List Text → Outcome (List Quota) → Type 0
  QuotasResult tokens o =
      (o ≡ raised data_error)
      ⊎ ((rules : List Rule) × AllPositive rules
          × (is_empty rules ≡ is_empty tokens)
          × (o ≡ ok (quotas_for rules)))

  parse_tokens-cases : (tokens : List Text) → QuotasResult tokens (parse_tokens tokens)
  unfolding parse_tokens
  parse_tokens-cases [] = inr ([], tt, refl, refl)
  parse_tokens-cases (token ∷ tokens) = elim (rate_token-cases token) [
    | inl bad ↦ inl (rw (bad, bind))
    | inr (limit, u, burst, h, good) ↦
        let made = quota_of-rule limit u burst h in
        elim (parse_tokens-cases tokens) [
          | inl bad ↦ inl (rw (good, bind) (rw (made, bind) (rw (bad, bind))))
          | inr (rules, hs, same, rest) ↦ inr (
            record { limit = limit; unit = u; burst = burst } ∷ rules,
            (h, hs),
            refl,
            rw (good, bind) (rw (made, bind) (rw (rest, bind))),
          )
        ]
  ]

  of_rules :
      (rules : List Rule) (o : Outcome (List Quota))
      → AllPositive rules
      → is_empty rules ≡ false
      → o ≡ ok (quotas_for rules)
      → (r : Rule) × (rs : List Rule) × AllPositive (r ∷ rs) × (o ≡ ok (quotas_for (r ∷ rs)))
  of_rules [] o h e p = absurd (cc e)
  of_rules (r ∷ rs) o h e p = (r, rs, h, p)

  -- A text is parsed to the quotas of one or more rules with positive limits, or it is a `DataError`.
  pub parse_cases :
      (quota_expr : Text)
      → (parse quota_expr ≡ raised data_error)
        ⊎ ((r : Rule) × (rs : List Rule) × AllPositive (r ∷ rs)
            × (parse quota_expr ≡ ok (quotas_for (r ∷ rs))))
  unfolding parse
  parse_cases quota_expr =
      let expression = strip quota_expr in
      let tokens = tokens_of (split_rules expression) in
      elim (Bool-cases (is_empty expression || is_empty tokens)) [
        | inl none_there ↦ inl (rw none_there)
        | inr there ↦ elim (parse_tokens-cases tokens) [
          | inl bad ↦ inl (rw (there, bad))
          | inr (rules, h, same, good) ↦
              let some_there : is_empty tokens ≡ false = ground arith in
              inr (rw there (of_rules rules (parse_tokens tokens) h (same ∙ some_there) good))
        ]
      ]

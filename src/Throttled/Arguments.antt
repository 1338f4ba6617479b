-- ===== src/Throttled/Arguments.antt =====
-- The arguments of the constructor of a `Throttled`, each with its check: when it is accepted.
use throttled_py.Action.{setup_error, data_error, type_error, ok, raised, bind}
use throttled_py.Common.{
  ◌<◌, ◌≡◌, ◌⊎◌, inl, inr, refl, true, false, Option, none, some, List, [], ◌∷◌, Bool-cases,
  Option-cases,
}
use throttled_py.Common.Float.{Float}
use throttled_py.Common.Text.{Text, codes}
use throttled_py.Common.Unicode.{Unicode, strip, starts_with, ends_with}
use throttled_py.Dict.{Dict, lookup}
use throttled_py.Quota.{Quota, per_duration}
use throttled_py.QuotaParser.{minute}
use throttled_py.QuotaParser.Rules.{Rule, quota_for}
use throttled_py.Registry
use throttled_py.Registry.{LimiterClass, register_key, is_empty, validate_key_prefix}
use throttled_py.Throttled.{validate_hooks}
use throttled_py.Throttled.Logic.{
  validate_prefix, parse_quota, QuotaArg, omitted, given, expression,
}
use throttled_py.Throttled.Setup.{expression-cases}

-- All the arguments are there.
abbrev pub all_some : {A : Type 0} → List A → List (Option A)
all_some [] = []
all_some (x ∷ xs) = some x ∷ all_some xs

-- One of the arguments is not there.
abbrev pub HasNone : {A : Type 0} → List (Option A) → Type 0
HasNone [] = ⊥
HasNone (none ∷ xs) = Unit
HasNone (some x ∷ xs) = HasNone xs

module _ ⦃F : Float⦄ where
  pub hooks_cases :
      {H : Type 0} (hooks : List (Option H))
      → ((validate_hooks hooks ≡ raised type_error) × HasNone hooks)
        ⊎ ((valid : List H) × (validate_hooks hooks ≡ ok valid) × (hooks ≡ all_some valid))
  unfolding validate_hooks
  hooks_cases [] = inr ([], refl, refl)
  hooks_cases (none ∷ hooks) = inl (refl, tt)
  hooks_cases (some hook ∷ hooks) = elim (hooks_cases hooks) [
    | inl (bad, h) ↦ inl (rw (bad, bind) refl, h)
    | inr (valid, good, same) ↦ inr (hook ∷ valid, rw (good, bind) refl, rw same refl)
  ]

module _ ⦃U : Unicode⦄ where
  -- A key prefix is not blank, and has no `:` at its ends; or there is none.
  abbrev pub PrefixOk : Option Text → Type 0
  PrefixOk none = Unit
  PrefixOk (some p) =
      (is_empty (strip p) ≡ false) × (starts_with b':' p ≡ false) × (ends_with b':' p ≡ false)

  abbrev pub PrefixBad : Option Text → Type 0
  PrefixBad none = ⊥
  PrefixBad (some p) =
      (is_empty (strip p) ≡ true) ⊎ (starts_with b':' p ≡ true) ⊎ (ends_with b':' p ≡ true)

  pub prefix_cases :
      (key_prefix : Option Text)
      → ((validate_prefix key_prefix ≡ raised data_error) × PrefixBad key_prefix)
        ⊎ ((validate_prefix key_prefix ≡ ok tt) × PrefixOk key_prefix)
  unfolding validate_prefix validate_key_prefix
  prefix_cases none = inr (refl, tt)
  prefix_cases (some p) = elim (Bool-cases (is_empty (strip p))) [
    | inl blank ↦ inl (rw blank refl, inl blank)
    | inr full ↦ elim (Bool-cases (starts_with b':' p)) [
      | inl first ↦ inl (rw (full, first) refl, inr (inl first))
      | inr plain ↦ elim (Bool-cases (ends_with b':' p)) [
        | inl last ↦ inl (rw (full, plain, last) refl, inr (inr last))
        | inr ended ↦ inr (rw (full, plain, ended) refl, (full, plain, ended))
      ]
    ]
  ]

module _ ⦃F : Float⦄ ⦃U : Unicode⦄ where
  -- The rule that a quota argument stands for: 60 per minute where it is omitted.
  abbrev pub QuotaFor : QuotaArg → Quota → Type 0
  QuotaFor omitted q = q ≡ quota_for (record { limit = 60; unit = minute; burst = none })
  QuotaFor (given own) q = q ≡ own
  QuotaFor (expression text) q = (r : Rule) × (0 < r.limit) × (q ≡ quota_for r)

  pub quota_cases :
      (arg : QuotaArg)
      → ((parse_quota arg ≡ raised data_error) × ((text : Text) × (arg ≡ expression text)))
        ⊎ ((q : Quota) × (parse_quota arg ≡ ok q) × QuotaFor arg q)
  unfolding parse_quota per_duration quota_for
  quota_cases omitted =
      inr (quota_for (record { limit = 60; unit = minute; burst = none }), refl, refl)
  quota_cases (given q) = inr (q, refl, refl)
  quota_cases (expression text) = elim (expression-cases text) [
    | inl bad ↦ inl (bad, (text, refl))
    | inr (r, h, good) ↦ inr (quota_for r, good, (r, h, refl))
  ]

  pub class_cases :
      (type : Text) (table : Dict LimiterClass)
      → ((Registry.get (codes "sync") type table ≡ raised setup_error)
          × (lookup (register_key (codes "sync") type) table ≡ none))
        ⊎ ((cls : LimiterClass) × (Registry.get (codes "sync") type table ≡ ok cls)
            × (lookup (register_key (codes "sync") type) table ≡ some cls))
  unfolding Registry.get
  class_cases type table = elim (Option-cases (lookup (register_key (codes "sync") type) table)) [
    | inl absent ↦ inl (rw (Registry.get, absent) refl, absent)
    | inr (cls, found) ↦ inr (cls, rw (Registry.get, found) refl, found)
  ]

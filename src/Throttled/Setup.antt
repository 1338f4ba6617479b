-- ===== src/Throttled/Setup.antt =====
-- The construction of a `Throttled`, and the checks of its arguments.
use throttled_py.Action.{ok, raised, data_error, bind}
use throttled_py.Common.{
  ℕ, ◌<◌, ◌≡◌, ◌≢◌, ◌⊎◌, inl, inr, refl, true, false, ◌||◌, Option, none, some, List, [], ◌∷◌,
  Bool-cases,
}
use throttled_py.Common.Float.{Float, zero_f, lt, Num, int, float, to_float}
use throttled_py.Common.Int.{pos, negsuc}
use throttled_py.Common.Text.{Text}
use throttled_py.Common.Unicode.{Unicode}
use throttled_py.QuotaParser.Rules.{Rule, AllPositive, quota_for, quotas_for, parse_cases}
use throttled_py.Throttled.{Throttled, World, Env, limit_args, limit_with, limit, checked_limit}
use throttled_py.Registry.{is_empty}
use throttled_py.Throttled.Logic.{
  validate_cost, validate_timeout, get_key, get_timeout, expression, single_quota, eq_f,
  non_blocking, parse_quota,
}

module _ ⦃F : Float⦄ ⦃U : Unicode⦄ where
  single-cases :
      (r : Rule) (rs : List Rule)
      → AllPositive (r ∷ rs)
      → (single_quota (quotas_for (r ∷ rs)) ≡ raised data_error)
        ⊎ ((s : Rule) × (0 < s.limit) × (single_quota (quotas_for (r ∷ rs)) ≡ ok (quota_for s)))
  unfolding single_quota
  single-cases r [] h = inr (r, h.0, refl)
  single-cases r (next ∷ rs) h = inl refl

  -- A quota expression gives the quota of one rule with a positive limit, or a `DataError`.
  pub expression-cases :
      (text : Text)
      → (parse_quota (expression text) ≡ raised data_error)
        ⊎ ((r : Rule) × (0 < r.limit) × (parse_quota (expression text) ≡ ok (quota_for r)))
  unfolding parse_quota
  expression-cases text = elim (parse_cases text) [
    | inl bad ↦ inl (rw (bad, bind))
    | inr (r, rs, h, good) ↦ rw (good, bind) (single-cases r rs h)
  ]

  -- The timeout does not block, or is positive.
  abbrev pub TimeoutOk : Num → Type 0
  TimeoutOk timeout = (eq_f (to_float timeout) non_blocking || lt zero_f (to_float timeout)) ≡ true

  -- A timeout that blocks for no time.
  abbrev pub TimeoutBad : Num → Type 0
  TimeoutBad timeout =
      (eq_f (to_float timeout) non_blocking || lt zero_f (to_float timeout)) ≡ false

  pub timeout_decided :
      (timeout : Num)
      → ((validate_timeout timeout ≡ raised data_error) × TimeoutBad timeout)
        ⊎ ((validate_timeout timeout ≡ ok tt) × TimeoutOk timeout)
  unfolding validate_timeout
  timeout_decided timeout =
      elim (Bool-cases (eq_f (to_float timeout) non_blocking || lt zero_f (to_float timeout))) [
        | inl fine ↦ inr (rw fine refl, fine)
        | inr bad ↦ inl (rw bad refl, bad)
      ]

  pub cost_decided :
      (cost : Num)
      → ((validate_cost cost ≡ raised data_error) × ((n : ℕ) → cost ≢ int (pos n)))
        ⊎ ((n : ℕ) × (validate_cost cost ≡ ok n) × (cost ≡ int (pos n)))
  unfolding validate_cost
  cost_decided (int (pos n)) = inr (n, refl, refl)
  cost_decided (int (negsuc m)) = inl (refl, λ n e. cc)
  cost_decided (float r) = inl (refl, λ n e. cc)

  get_timeout-cases :
      (timeout : Option Num) (own : Num)
      → TimeoutOk own
      → (get_timeout timeout own ≡ raised data_error)
        ⊎ ((time : Num) × TimeoutOk time × (get_timeout timeout own ≡ ok time))
  unfolding get_timeout
  get_timeout-cases none own h = inr (own, h, refl)
  get_timeout-cases (some timeout) own h = elim (timeout_decided timeout) [
    | inl (bad, _) ↦ inl (rw (bad, bind))
    | inr (good, fine) ↦ inr (timeout, fine, rw (good, bind))
  ]

  get_key-cases :
      (key own : Option Text)
      → (get_key key own ≡ raised data_error)
        ⊎ ((k : Text) × (is_empty k ≡ false)
            × ((key ≡ some k) ⊎ (own ≡ some k))
            × (get_key key own ≡ ok k))
  unfolding get_key
  get_key-cases (some (c ∷ key)) own = inr (c ∷ key, refl, inl refl, refl)
  get_key-cases none (some (c ∷ own)) = inr (c ∷ own, refl, inr refl, refl)
  get_key-cases (some []) (some (c ∷ own)) = inr (c ∷ own, refl, inr refl, refl)
  get_key-cases none none = inl refl
  get_key-cases none (some []) = inl refl
  get_key-cases (some []) none = inl refl
  get_key-cases (some []) (some []) = inl refl

module _ ⦃F : Float⦄ ⦃U : Unicode⦄ {H : Type 0} where
  -- The arguments that `limit` goes on with: a natural number for the cost, a key that is not empty
  -- and is the one given or the object's own, and a timeout that does not block or is positive.
  pub record Checked (t : Throttled H) (key : Option Text) (cost : Num) (n : ℕ) (k : Text)
      (time : Num) : Type 0 where
    pub cost_eq : cost ≡ int (pos n)
    pub key_full : is_empty k ≡ false
    pub key_from : (key ≡ some k) ⊎ (t.key ≡ some k)
    pub time_ok : TimeoutOk time

  -- On an object with a valid timeout, `limit` raises a `DataError` and changes nothing, or it makes
  -- its check with arguments that are in order.
  pub limit_cases :
      (t : Throttled H) (key : Option Text) (cost : Num) (timeout : Option Num) (env : Env)
      (w : World × H)
      → TimeoutOk t.timeout
      → (limit t key cost timeout env w ≡ (raised data_error, w))
        ⊎ ((n : ℕ) × (k : Text) × (time : Num) × Checked t key cost n k time
            × (limit t key cost timeout env w ≡ checked_limit t k n time env w))
  unfolding limit limit_args limit_with
  limit_cases t key cost timeout env w own = elim (cost_decided cost) [
    | inl (bad, _) ↦ inl (rw (bad, bind))
    | inr (n, good, e) ↦ elim (get_key-cases key t.key) [
      | inl bad ↦ inl (rw (good, bind) (rw (bad, bind)))
      | inr (k, full, from, found) ↦ elim (get_timeout-cases timeout t.timeout own) [
        | inl bad ↦ inl (rw (good, bind) (rw (found, bind) (rw (bad, bind))))
        | inr (time, fine, got) ↦ inr (
          n,
          k,
          time,
          record { cost_eq = e; key_full = full; key_from = from; time_ok = fine },
          rw (good, bind) (rw (found, bind) (rw (got, bind))),
        )
      ]
    ]
  ]

-- ===== src/Throttled/Init.antt =====
-- The constructor of a `Throttled`: the arguments that it accepts, and why it refuses others.
use throttled_py.Action.{Exc, setup_error, data_error, type_error, Outcome, ok, raised, bind}
use throttled_py.Common.{ℕ, ◌≡◌, ◌≢◌, ◌⊎◌, inl, inr, refl, none, some}
use throttled_py.Common.Float.{Float, int}
use throttled_py.Common.Int.{pos}
use throttled_py.Common.Text.{Text, codes}
use throttled_py.Common.Unicode.{Unicode}
use throttled_py.Dict.{Dict, lookup}
use throttled_py.Quota.{Quota}
use throttled_py.Registry.{LimiterClass, register_key}
use throttled_py.Throttled.{Throttled, Args, using_or, timeout_or, validate_hooks, init}
use throttled_py.Throttled.Logic.{validate_cost, validate_prefix, parse_quota, expression}
use throttled_py.Throttled.Setup.{TimeoutOk, TimeoutBad, timeout_decided, cost_decided}
use throttled_py.Throttled.Arguments.{
  all_some, HasNone, PrefixOk, PrefixBad, QuotaFor, hooks_cases, prefix_cases, quota_cases,
  class_cases,
}

module _ ⦃F : Float⦄ ⦃U : Unicode⦄ {H : Type 0} where
  -- What a constructed object has of its arguments.
  pub record Made (table : Dict LimiterClass) (a : Args H) (t : Throttled H) : Type 0 where
    pub key : t.key ≡ a.key
    pub timeout : t.timeout ≡ timeout_or a.timeout
    pub time_ok : TimeoutOk t.timeout
    pub quota : QuotaFor a.quota t.quota
    pub cls : lookup (register_key (codes "sync") (using_or a.using)) table ≡ some t.limiter_cls
    pub key_prefix : t.key_prefix ≡ a.key_prefix
    pub prefix_ok : PrefixOk t.key_prefix
    pub hooks : a.hooks ≡ all_some t.hooks
    pub cost : a.cost ≡ int (pos t.cost)

  -- Why arguments are refused, by the exception.
  pub data Reason (table : Dict LimiterClass) (a : Args H) : Exc → Type 0 where
    timeout_bad : TimeoutBad (timeout_or a.timeout) → Reason table a data_error
    quota_bad :
        (text : Text)
        → a.quota ≡ expression text
        → parse_quota (expression text) ≡ raised data_error
        → Reason table a data_error
    class_unknown :
        lookup (register_key (codes "sync") (using_or a.using)) table ≡ none
        → Reason table a setup_error
    prefix_bad : PrefixBad a.key_prefix → Reason table a data_error
    hook_bad : HasNone a.hooks → Reason table a type_error
    cost_bad : ((n : ℕ) → a.cost ≢ int (pos n)) → Reason table a data_error

  -- the constructor behind its first three checks
  abbrev behind : Args H → LimiterClass → Quota → Outcome (Throttled H)
  behind a cls quota = bind (validate_prefix a.key_prefix) λ _.
      bind (validate_hooks a.hooks) λ hooks. bind (validate_cost a.cost) λ cost. ok (record {
        key = a.key;
        timeout = timeout_or a.timeout;
        quota = quota;
        limiter_cls = cls;
        key_prefix = a.key_prefix;
        hooks = hooks;
        cost = cost;
      })

  init_rest :
      (table : Dict LimiterClass) (a : Args H) (cls : LimiterClass) (quota : Quota)
      → TimeoutOk (timeout_or a.timeout)
      → QuotaFor a.quota quota
      → lookup (register_key (codes "sync") (using_or a.using)) table ≡ some cls
      → ((e : Exc) × (behind a cls quota ≡ raised e) × Reason table a e)
        ⊎ ((t : Throttled H) × (behind a cls quota ≡ ok t) × Made table a t)
  init_rest table a cls quota time_ok rule found = elim (prefix_cases a.key_prefix) [
    | inl (bad, why) ↦ inl (data_error, rw (bad, bind) refl, prefix_bad why)
    | inr (prefixed, prefix_ok) ↦ elim (hooks_cases a.hooks) [
      | inl (bad, why) ↦ inl (type_error, rw (prefixed, bind) (rw (bad, bind) refl), hook_bad why)
      | inr (hooks, hooked, all) ↦ elim (cost_decided a.cost) [
        | inl (bad, why) ↦ inl (
          data_error,
          rw (prefixed, bind) (rw (hooked, bind) (rw (bad, bind) refl)),
          cost_bad why,
        )
        | inr (cost, costed, same) ↦ inr (
          record {
            key = a.key;
            timeout = timeout_or a.timeout;
            quota = quota;
            limiter_cls = cls;
            key_prefix = a.key_prefix;
            hooks = hooks;
            cost = cost;
          },
          rw (prefixed, bind) (rw (hooked, bind) (rw (costed, bind) refl)),
          record {
            key = refl;
            timeout = refl;
            time_ok = time_ok;
            quota = rule;
            cls = found;
            key_prefix = refl;
            prefix_ok = prefix_ok;
            hooks = all;
            cost = same;
          },
        )
      ]
    ]
  ]

  -- The constructor makes an object that has the key, the timeout and the key prefix that it was given,
  -- the default timeout where there was none, the quota of a rule that the expression gave, or the given
  -- one, or 60 per minute, the class that is registered for its type, all the hooks, and the cost, which
  -- is a natural number; the timeout and the key prefix are in order. Or else it raises: a `DataError`
  -- for the timeout, the expression, the key prefix or the cost, a `SetUpError` for a type that is not
  -- registered, a `TypeError` for a hook that is none.
  pub init-cases :
      (table : Dict LimiterClass) (a : Args H)
      → ((e : Exc) × (init table a ≡ raised e) × Reason table a e)
        ⊎ ((t : Throttled H) × (init table a ≡ ok t) × Made table a t)
  unfolding init
  init-cases table a = elim (timeout_decided (timeout_or a.timeout)) [
    | inl (bad, why) ↦ inl (data_error, rw (bad, bind) refl, timeout_bad why)
    | inr (timed, time_ok) ↦ elim (quota_cases a.quota) [
      | inl (bad, (text, same)) ↦
          inl (
            data_error,
            rw (timed, bind) (rw (bad, bind) refl),
            quota_bad text same (rw same at bad),
          )
      | inr (quota, parsed, rule) ↦ elim (class_cases (using_or a.using) table) [
        | inl (bad, why) ↦ inl (
          setup_error,
          rw (timed, bind) (rw (parsed, bind) (rw (bad, bind) refl)),
          class_unknown why,
        )
        | inr (cls, got, found) ↦
            let made = init_rest table a cls quota time_ok rule found in
            rw (timed, bind) (rw (parsed, bind) (rw (got, bind) made))
      ]
    ]
  ]

-- ===== src/Throttled.antt =====
-- throttled/throttled.py: the object that a user calls. It checks its arguments, makes its rate
-- limiter when it is first used, and asks it, inside the chain of hooks, once or until a timeout.
pub mod Logic
mod Retries
pub mod Grants
pub mod Admits
pub mod Ends
pub mod Finishes
pub mod Setup
pub mod Arguments
pub mod Init
pub mod Sleeps
pub mod Guards
unfoldable pub use Retries.*
use throttled_py.Action.{
  Exc, type_error, data_error, limited_error, Outcome, ok, raised, Action, bind, pure, raise, after,
  ◌>>=◌, ◌>>◌,
}
use throttled_py.Common.{
  ℕ, Bool, true, false, not, ◌||◌, Option, none, some, List, [], ◌∷◌, ◌++◌, if◌then◌else◌,
}
use throttled_py.Common.Float.{Float, Real, zero_f, minus, le, lt, Num, int, float, to_float}
use throttled_py.Common.Int.{pos, negsuc}
use throttled_py.Common.Text.{Text, codes}
use throttled_py.Common.Unicode.{Unicode}
use throttled_py.Dict.{Dict}
use throttled_py.Hooks.{HookContext, Hook, alone, build_hook_chain}
use throttled_py.Memory.{Backend}
use throttled_py.Quota.{Quota, RateLimitResult, RateLimitState, Clock}
use throttled_py.Registry.{LimiterClass, Instance, make_limiter}
use throttled_py.Registry
use throttled_py.Registry.Builtin.{memory_store, token_bucket, value}
use Logic.{
  non_blocking, eq_f, validate_cost, validate_timeout, validate_prefix, get_key, get_timeout,
  get_wait_time, is_exit_waiting, QuotaArg, parse_quota,
}

module _ ⦃F : Float⦄ (H : Type 0) where
  -- The fields of a constructed object that no method changes; `H` is the state of the hooks.
  pub record Throttled : Type 0 where
    pub key : Option Text
    pub timeout : Num
    pub quota : Quota
    pub limiter_cls : LimiterClass
    pub key_prefix : Option Text
    pub hooks : List (Hook H RateLimitResult)
    pub cost : ℕ

  -- The arguments of the constructor; a hook is `none` where an object of another type is given.
  pub record Args : Type 0 where
    pub key : Option Text
    pub timeout : Option Num
    pub using : Option Text
    pub quota : QuotaArg
    pub cost : Num
    pub hooks : List (Option (Hook H RateLimitResult))
    pub key_prefix : Option Text

module _ ⦃F : Float⦄ where
  -- `_validate_hooks`
  unfoldable pub validate_hooks : {H : Type 0} → List (Option H) → Outcome (List H)
  validate_hooks [] = ok []
  validate_hooks (none ∷ hooks) = raised type_error
  validate_hooks (some hook ∷ hooks) =
      let rest = validate_hooks hooks in bind rest (λ valid. ok (hook ∷ valid))

  -- `using or _DEFAULT_RATE_LIMITER_TYPE`
  unfoldable pub using_or : Option Text → Text
  unfolding value
  using_or (some (c ∷ type)) = c ∷ type
  using_or _ = value token_bucket

  abbrev pub timeout_or : Option Num → Num
  timeout_or none = int (negsuc 0)
  timeout_or (some timeout) = timeout

module _ ⦃F : Float⦄ ⦃U : Unicode⦄ {H : Type 0} where
  -- `BaseThrottled.__init__`, with the table of the registry
  unfoldable pub init : Dict LimiterClass → Args H → Outcome (Throttled H)
  unfolding validate_timeout parse_quota Registry.get using_or validate_prefix validate_hooks
      validate_cost
  init table a = bind (validate_timeout (timeout_or a.timeout)) λ _.
      bind (parse_quota a.quota) λ quota.
        bind (Registry.get (codes "sync") (using_or a.using) table) λ cls.
          bind (validate_prefix a.key_prefix) λ _. bind (validate_hooks a.hooks) λ hooks.
            bind (validate_cost a.cost) λ cost. ok (record {
              key = a.key;
              timeout = timeout_or a.timeout;
              quota = quota;
              limiter_cls = cls;
              key_prefix = a.key_prefix;
              hooks = hooks;
              cost = cost;
            })

module _ ⦃F : Float⦄ ⦃U : Unicode⦄ {H : Type 0} where
  -- the property `limiter`, by what `_limiter` holds
  unfoldable pub limiter_from : Throttled H → Option Instance → Action World Instance
  unfolding make_limiter keep_limiter
  limiter_from t (some i) = pure i
  limiter_from t none =
      keep_limiter (make_limiter t.limiter_cls t.quota memory_store [] t.key_prefix)

  unfoldable pub limiter : Throttled H → Action World Instance
  unfolding limiter_from
  limiter t w = limiter_from t w.limiter w

  -- `self.limiter.limit(key, cost)`
  unfoldable pub ask : Throttled H → Text → ℕ → Clock → Action World RateLimitResult
  unfolding limiter check
  ask t key cost c = do i ← limiter t; check i key cost c

  -- `_do_limit`
  unfoldable pub do_limit : Throttled H → Text → ℕ → Real → Env → Action World RateLimitResult
  unfolding ask retry
  do_limit t key cost timeout env = do
    result ← ask t key cost env.clock
    if eq_f timeout non_blocking || not result.limited
        then pure result
        else retry (ask t key cost) timeout env.start_time env.rounds result

  -- the context of the hooks; a class from the registry has a type
  unfoldable pub context_of : Throttled H → Text → ℕ → HookContext
  context_of t key cost = record {
    key = key;
    cost = cost;
    algorithm = elim t.limiter_cls.type [ none ↦ [] | some type ↦ type ];
    store_type = memory_store;
  }

  -- `limit` behind its checks
  unfoldable pub checked_limit :
      Throttled H → Text → ℕ → Num → Env → Action (World × H) RateLimitResult
  unfolding do_limit build_hook_chain context_of to_float
  checked_limit t key cost timeout env =
      build_hook_chain t.hooks (do_limit t key cost (to_float timeout) env) (context_of t key cost)

  -- the arguments of `limit` that are used, after its checks
  unfoldable pub limit_args :
      Throttled H → Option Text → Num → Option Num → Outcome (ℕ × Text × Num)
  unfolding validate_cost get_key get_timeout
  limit_args t key cost timeout = bind (validate_cost cost) λ n.
      bind (get_key key t.key)
        λ k. bind (get_timeout timeout t.timeout) λ limit_time. ok (n, k, limit_time)

  unfoldable pub limit_with :
      Throttled H → Outcome (ℕ × Text × Num) → Env → Action (World × H) RateLimitResult
  unfolding checked_limit
  limit_with t (ok (n, k, timeout)) env = checked_limit t k n timeout env
  limit_with t (raised e) env = raise e

  unfoldable pub limit :
      Throttled H → Option Text → Num → Option Num → Env → Action (World × H) RateLimitResult
  unfolding limit_args limit_with
  limit t key cost timeout env = limit_with t (limit_args t key cost timeout) env

  -- a limited result is raised as `LimitedError`
  unfoldable pub admit : RateLimitResult → Action (World × H) RateLimitResult
  admit result = if result.limited then raise limited_error else pure result

  -- `__enter__`, which calls `limit` with its defaults
  unfoldable pub enter : Throttled H → Env → Action (World × H) RateLimitResult
  unfolding limit admit
  enter t env = do result ← limit t none (int (pos 1)) none env; admit result

  -- `__call__` on a function: it needs a key
  unfoldable pub has_key : Throttled H → Bool
  has_key t = elim t.key [ none ↦ false | some key ↦ elim key [ [] ↦ false | c ∷ s ↦ true ] ]

  -- the decorated function
  unfoldable pub decorated :
      {A : Type 0} → Throttled H → Action (World × H) A → Env → Action (World × H) A
  unfolding limit admit
  decorated t func env = do result ← limit t none (int (pos t.cost)) none env; admit result; func

  unfoldable pub decorate :
      {A : Type 0} → Throttled H → Action (World × H) A → Outcome (Env → Action (World × H) A)
  unfolding has_key decorated
  decorate t func = if has_key t then ok (λ env. decorated t func env) else raised data_error

  unfoldable pub peek : Throttled H → Text → Clock → Action World RateLimitState
  unfolding limiter
  peek t key c = do
    i ← limiter t
    λ w. let done = i.cls.peek i.limiter key c w.backend in (done.0, record w { backend = done.1 })

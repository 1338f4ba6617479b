-- ===== src/Asyncio/Throttled.antt =====
-- throttled/asyncio/throttled.py: the object of the asynchronous package, on the fields and the checks
-- of its synchronous twin. `asyncio.sleep` and the lock of the store are where a task may be
-- suspended.
pub mod Refines
pub mod Concurrent
use throttled_py.Action.{Outcome, ok, raised, limited_error, data_error, bind}
use throttled_py.Asyncio.Coro.{
  Ending, returned, failed, cancelled, Coro, done, does, awaits, act, suspend, and_then, on_value,
  ◌>>=◌, ◌>>◌, lift,
}
use throttled_py.Asyncio.Hooks.{Hook, build_hook_chain}
use throttled_py.Common.{
  ℕ, Bool, true, false, not, ◌||◌, Option, none, some, List, [], ◌∷◌, if◌then◌else◌,
}
use throttled_py.Common.Float.{Float, Real, zero_f, minus, le, lt, Num, int, to_float}
use throttled_py.Common.Int.{pos}
use throttled_py.Common.Text.{Text, codes}
use throttled_py.Common.Unicode.{Unicode}
use throttled_py.Dict.{Dict}
use throttled_py.Quota.{RateLimitResult, RateLimitState, Clock}
use throttled_py.Registry
use throttled_py.Registry.{Instance, LimiterClass}
use throttled_py.Throttled.{
  Throttled, Args, World, Round, Env, check, limiter, limit_args, context_of, has_key,
  validate_hooks, using_or, timeout_or,
}
use throttled_py.Throttled.Logic.{
  non_blocking, eq_f, get_wait_time, is_exit_waiting, validate_timeout, parse_quota,
  validate_prefix, validate_cost,
}

module _ ⦃F : Float⦄ where
  -- `_wait` after its first test
  unfoldable pub wait_loop : Real → Real → Real → List Real → Coro World (Unit {0})
  unfolding get_wait_time is_exit_waiting
  wait_loop timeout retry_after start_time [] = act (λ w. (ok tt, record w { unfinished = true }))
  wait_loop timeout retry_after start_time (now ∷ readings) =
      does (λ w. record w { sleeps = get_wait_time retry_after ∷ w.sleeps })
        (λ _. suspend (
          if is_exit_waiting now start_time retry_after timeout
          then done (returned tt)
          else wait_loop timeout retry_after start_time readings))

  unfoldable pub wait : Real → Real → Round → Coro World (Unit {0})
  unfolding wait_loop
  wait timeout retry_after r =
      if le retry_after zero_f
      then done (returned tt)
      else wait_loop timeout retry_after r.wait_start r.readings

  -- The loop of `_do_limit`.
  unfoldable pub retry :
      (Clock → Coro World RateLimitResult)
      → Real
      → Real
      → List Round
      → RateLimitResult
      → Coro World RateLimitResult
  unfolding wait to_float
  retry ask timeout start_time [] result =
      if lt timeout (to_float result.state.retry_after)
      then done (returned result)
      else act (λ w. (ok result, record w { unfinished = true }))
  retry ask timeout start_time (r ∷ rounds) result =
      if lt timeout (to_float result.state.retry_after)
      then done (returned result)
      else wait timeout (to_float result.state.retry_after) r >>= λ _. ask r.clock >>= λ next.
          if not next.limited || le timeout (minus r.now start_time)
          then done (returned next)
          else retry ask timeout start_time rounds next

module _ ⦃F : Float⦄ (H : Type 0) where
  -- The fields are those of the other package, but for the hooks.
  pub record AsyncThrottled : Type 0 where
    pub fields : Throttled H
    pub hooks : List (Hook H RateLimitResult)

module _ ⦃F : Float⦄ ⦃U : Unicode⦄ {H : Type 0} where
  -- `BaseThrottled.__init__`: the arguments are those of the other package, but for the hooks, and
  -- the registry is another one.
  unfoldable pub init :
      Dict LimiterClass
      → Args H
      → List (Option (Hook H RateLimitResult))
      → Outcome (AsyncThrottled H)
  unfolding validate_timeout parse_quota Registry.get using_or validate_prefix validate_hooks
      validate_cost
  init table a given = bind (validate_timeout (timeout_or a.timeout)) λ _.
      bind (parse_quota a.quota) λ quota.
        bind (Registry.get (codes "async") (using_or a.using) table) λ cls.
          bind (validate_prefix a.key_prefix) λ _. bind (validate_hooks given) λ hooks.
            bind (validate_cost a.cost) λ cost.
              let fields : Throttled H = record {
                key = a.key;
                timeout = timeout_or a.timeout;
                quota = quota;
                limiter_cls = cls;
                key_prefix = a.key_prefix;
                hooks = [];
                cost = cost;
              } in
              ok (record { fields = fields; hooks = hooks })

  -- `await self.limiter.limit(key, cost)`: the check runs behind the lock of the store
  unfoldable pub ask : Throttled H → Text → ℕ → Clock → Coro World RateLimitResult
  unfolding limiter check
  ask t key cost c = act (limiter t) >>= λ i. suspend (act (check i key cost c))

  -- `_do_limit`
  unfoldable pub do_limit : Throttled H → Text → ℕ → Real → Env → Coro World RateLimitResult
  unfolding ask retry
  do_limit t key cost timeout env = ask t key cost env.clock >>= λ result.
      if eq_f timeout non_blocking || not result.limited
      then done (returned result)
      else retry (ask t key cost) timeout env.start_time env.rounds result

  -- `limit` behind its checks
  unfoldable pub limit_with :
      AsyncThrottled H → Outcome (ℕ × Text × Num) → Env → Coro (World × H) RateLimitResult
  unfolding do_limit build_hook_chain context_of to_float
  limit_with t (raised e) env = done (failed e)
  limit_with t (ok (n, k, timeout)) env =
      build_hook_chain t.hooks (do_limit t.fields k n (to_float timeout) env)
        (context_of t.fields k n)

  unfoldable pub limit :
      AsyncThrottled H → Option Text → Num → Option Num → Env → Coro (World × H) RateLimitResult
  unfolding limit_args limit_with
  limit t key cost timeout env = limit_with t (limit_args t.fields key cost timeout) env

  -- a limited result is raised as `LimitedError`
  abbrev pub admit : RateLimitResult → Coro (World × H) RateLimitResult
  admit result = if result.limited then done (failed limited_error) else done (returned result)

  -- `__aenter__`, which calls `limit` with its defaults
  unfoldable pub enter : AsyncThrottled H → Env → Coro (World × H) RateLimitResult
  unfolding limit
  enter t env = limit t none (int (pos 1)) none env >>= admit

  -- the decorated coroutine function
  unfoldable pub decorated :
      {A : Type 0} → AsyncThrottled H → Coro (World × H) A → Env → Coro (World × H) A
  unfolding limit
  decorated t func env =
      limit t none (int (pos t.fields.cost)) none env >>= λ result. admit result >> func

  -- `__call__` on a coroutine function
  unfoldable pub decorate :
      {A : Type 0} → AsyncThrottled H → Coro (World × H) A → Outcome (Env → Coro (World × H) A)
  unfolding has_key decorated
  decorate t func = if has_key t.fields then ok (λ env. decorated t func env) else raised data_error

  unfoldable pub peek : Throttled H → Text → Clock → Coro World RateLimitState
  unfolding limiter
  peek t key c = act (limiter t) >>= λ i. suspend (
      act (λ w.
        let result = i.cls.peek i.limiter key c w.backend in
        (result.0, record w { backend = result.1 })))

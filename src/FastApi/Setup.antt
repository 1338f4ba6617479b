-- ===== src/FastApi/Setup.antt =====
-- throttled/asyncio/contrib/fastapi/limiter.py: the construction of a limiter, and its decorator.
use throttled_py.Action.{type_error, Outcome, ok, raised, bind}
use throttled_py.Asyncio.Throttled
use throttled_py.Asyncio.Throttled.{AsyncThrottled}
use throttled_py.Common.{Bool, Option, none, some, List, [], if◌then◌else◌}
use throttled_py.Common.Float.{Float, int}
use throttled_py.Common.Int.{pos}
use throttled_py.Common.Text.{Text}
use throttled_py.Common.Unicode.{Unicode}
use throttled_py.Flask.Keys.{Quoting}
use throttled_py.Quota.{RateLimitResult}
use throttled_py.Registry.{LimiterClass}
use throttled_py.Dict.{Dict}
use throttled_py.Asyncio.Hooks.{Hook}
use throttled_py.Throttled.{Env, Args}
use throttled_py.Throttled.Logic.{validate_prefix, QuotaArg, omitted}
use throttled_py.Flask.Setup.{quota_or}
use throttled_py.FastApi.{Request, Route, KeyFunc, plain, default_principal, wrapper}

module _ ⦃F : Float⦄ (H : Type 0) where
  -- `Limiter`; its store is the memory store
  pub record Limiter : Type 0 where
    pub default_quota : QuotaArg
    pub using : Text
    pub key_func : KeyFunc H
    pub key_prefix : Option Text
    pub hooks : List (Option (Hook H RateLimitResult))

module _ ⦃F : Float⦄ ⦃U : Unicode⦄ {H : Type 0} where
  -- `_default_key_func`
  abbrev pub default_key_func : KeyFunc H
  default_key_func r = ok (plain default_principal)

  abbrev pub key_func_or : KeyFunc H → Option (KeyFunc H) → KeyFunc H
  key_func_or default none = default
  key_func_or default (some key_func) = key_func

  -- `Limiter.__init__`
  unfoldable pub init_limiter :
      QuotaArg
      → Text
      → Option (KeyFunc H)
      → Option Text
      → List (Option (Hook H RateLimitResult))
      → Outcome (Limiter H)
  unfolding validate_prefix default_principal
  init_limiter omitted using key_func key_prefix hooks = raised type_error
  init_limiter quota using key_func key_prefix hooks = bind (validate_prefix key_prefix) λ _.
      ok (record {
        default_quota = quota;
        using = using;
        key_func = key_func_or default_key_func key_func;
        key_prefix = key_prefix;
        hooks = hooks;
      })

  -- `Limiter.limit` up to its decorator: the object of the route, and its key function
  unfoldable pub limit :
      Dict LimiterClass
      → Limiter H
      → QuotaArg
      → Option (KeyFunc H)
      → Outcome (AsyncThrottled H × KeyFunc H)
  unfolding Throttled.init
  limit table l quota key_func =
      let args : Args H = record {
        key = none;
        timeout = none;
        using = some l.using;
        quota = quota_or l.default_quota quota;
        cost = int (pos 1);
        hooks = [];
        key_prefix = l.key_prefix;
      } in
      bind (Throttled.init table args l.hooks)
        λ throttled. ok (throttled, key_func_or l.key_func key_func)

module _ ⦃F : Float⦄ ⦃U : Unicode⦄ ⦃Q : Quoting⦄ {H A : Type 0} where
  -- the decorator: `is_coroutine` is what `inspect.iscoroutinefunction(func)` says
  unfoldable pub decorator :
      AsyncThrottled H
      → KeyFunc H
      → Bool
      → Route H A
      → Outcome (List (Option Request) → List (Option Request) → Env → Route H A)
  unfolding wrapper
  decorator t key_func is_coroutine func =
      if is_coroutine
      then ok (λ args kwargs env. wrapper t key_func func args kwargs env)
      else raised type_error

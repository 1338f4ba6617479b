-- ===== src/Flask/Setup.antt =====
-- throttled/contrib/flask/limiter.py: the construction of a limiter, its attachment to an application,
-- and its decorator.
use throttled_py.Action.{Outcome, ok, raised, type_error, bind}
use throttled_py.Common.{
  ℕ, ◌+◌, Bool-cases, inl, inr, ◌≡◌, ◌==◌, Bool, true, false, Option, none, some, List, [], ◌∷◌,
  arith, if◌then◌else◌,
}
use throttled_py.Common.Float.{Float, int}
use throttled_py.Common.Int.{pos}
use throttled_py.Common.Text.{Text, codes}
use throttled_py.Common.Unicode.{Unicode}
use throttled_py.Dict.{Dict}
use throttled_py.Flask.Keys.{Request}
use throttled_py.Hooks.{Hook}
use throttled_py.Quota.{RateLimitResult}
use throttled_py.Registry.{LimiterClass}
use throttled_py.Throttled
use throttled_py.Throttled.{Throttled, Args}
use throttled_py.Throttled.Logic.{validate_prefix, QuotaArg, omitted}

-- `app.extensions[_EXTENSION_KEY]`, the limiters by their identities, and how often the `after_request`
-- hook is registered
pub record App : Type 0 where
  pub limiters : List ℕ
  pub registered : ℕ

-- `self in limiters`
unfoldable pub contains_id : ℕ → List ℕ → Bool
contains_id i [] = false
contains_id i (j ∷ limiters) = let rest = contains_id i limiters in if i == j then true else rest

-- the registration of the hook, at the first limiter of an application
abbrev first : List ℕ → ℕ
first [] = 1
first (j ∷ limiters) = 0

-- `init_app`
unfoldable pub init_app : ℕ → App → App
unfolding contains_id
init_app i app =
    if contains_id i app.limiters
    then app
    else record { limiters = i ∷ app.limiters; registered = app.registered + first app.limiters }

-- The hook is registered once if a limiter is attached, and not at all otherwise.
abbrev pub IsAttached : App → Type 0
IsAttached app = app.registered + first app.limiters ≡ 1

-- However many limiters are attached, and however often, the hook stays registered once.
pub init_app-IsAttached : (i : ℕ) (app : App) → IsAttached app → IsAttached (init_app i app)
unfolding init_app
init_app-IsAttached i app h = elim (Bool-cases (contains_id i app.limiters)) [
  | inl present ↦ rw present h
  | inr absent ↦ rw absent (omega (arith, h))
]

module _ ⦃F : Float⦄ (H : Type 0) where
  -- `Limiter`; its store is the memory store
  pub record Limiter : Type 0 where
    pub default_quota : QuotaArg
    pub using : Text
    pub key_func : Request → Outcome Text
    pub key_prefix : Option Text
    pub hooks : List (Option (Hook H RateLimitResult))

-- `_default_key_func`
unfoldable pub default_key_func : Request → Outcome Text
default_key_func r = ok (codes "__throttled_global_principal__")

abbrev pub key_func_or :
    (Request → Outcome Text) → Option (Request → Outcome Text) → Request → Outcome Text
key_func_or default none = default
key_func_or default (some key_func) = key_func

module _ ⦃F : Float⦄ where
  abbrev pub quota_or : QuotaArg → QuotaArg → QuotaArg
  quota_or default omitted = default
  quota_or default quota = quota

module _ ⦃F : Float⦄ ⦃U : Unicode⦄ {H : Type 0} where
  -- `Limiter.__init__`, without an application
  unfoldable pub init_limiter :
      QuotaArg
      → Text
      → Option (Request → Outcome Text)
      → Option Text
      → List (Option (Hook H RateLimitResult))
      → Outcome (Limiter H)
  unfolding validate_prefix default_key_func
  init_limiter omitted using key_func key_prefix hooks = raised type_error
  init_limiter quota using key_func key_prefix hooks = bind (validate_prefix key_prefix) λ _.
      ok (record {
        default_quota = quota;
        using = using;
        key_func = key_func_or default_key_func key_func;
        key_prefix = key_prefix;
        hooks = hooks;
      })

  -- `Limiter.limit` up to its decorator: the object of the view, and its key function
  unfoldable pub limit :
      Dict LimiterClass
      → Limiter H
      → QuotaArg
      → Option (Request → Outcome Text)
      → Outcome (Throttled H × (Request → Outcome Text))
  unfolding Throttled.init
  limit table l quota key_func =
      let args : Args H = record {
        key = none;
        timeout = none;
        using = some l.using;
        quota = quota_or l.default_quota quota;
        cost = int (pos 1);
        hooks = l.hooks;
        key_prefix = l.key_prefix;
      } in
      bind (Throttled.init table args) λ throttled. ok (throttled, key_func_or l.key_func key_func)

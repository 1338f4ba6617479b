-- ===== src/FastApi.antt =====
-- throttled/asyncio/contrib/fastapi: the limiter of routes (limiter.py), the middleware and the handler
-- that write headers, and the key functions. Its headers.py and keys.py are those of the Flask
-- integration.
pub mod Served
pub mod Responses
pub mod Setup
use throttled_py.Action.{Exc, type_error, store_unavailable, Outcome, ok, raised, bind}
use throttled_py.Asyncio.Coro.{
  Ending, returned, failed, cancelled, Coro, done, does, awaits, ending, act, and_then, ◌>>=◌, lift,
}
use throttled_py.Asyncio.Throttled
use throttled_py.Asyncio.Throttled.{AsyncThrottled}
use throttled_py.Common.{
  ℕ, Bool, true, false, Option, none, some, List, [], ◌∷◌, ◌++◌, if◌then◌else◌,
}
use throttled_py.Common.Float.{Float, int}
use throttled_py.Common.Int.{pos}
use throttled_py.Common.Text.{Text, codes}
use throttled_py.Common.Unicode.{Unicode}
use throttled_py.Flask.Headers.{RateLimitContext, default_header_policy}
use throttled_py.Flask.Keys.{Quoting, compose_key, remote_or}
use throttled_py.Flask.View.{Answer, rate_limit_exceeded, service_unavailable, raised_by}
use throttled_py.Quota.{RateLimitResult}
use throttled_py.Registry.{LimiterClass}
use throttled_py.Dict.{Dict}
use throttled_py.Asyncio.Hooks.{Hook}
use throttled_py.Throttled.{World, Env, Args}
use throttled_py.Throttled.Logic.{validate_prefix, QuotaArg, omitted}

-- The classes in `StoreUnavailableError.__mro__`, and the other keys of `app.exception_handlers`.
pub data HandlerKey : Type 0 where
  store_unavailable_error base_throttled_error exception base_exception object : HandlerKey
  other : ℕ → HandlerKey

-- what the limiter reads of a request; `client_host` is `none` without a client
pub record Request : Type 0 where
  pub method : Text
  pub root_path : Option Text
  pub path_format : Text
  pub client_host : Option Text
  pub exception_handlers : List HandlerKey

-- `cls is not Exception and cls in app.exception_handlers`, for a class of the method resolution
-- order that is one of the handlers' keys
abbrev is_handling : HandlerKey → Bool
is_handling store_unavailable_error = true
is_handling base_throttled_error = true
is_handling exception = false
is_handling base_exception = true
is_handling object = true
is_handling (other n) = false

-- `_has_exception_handler`, on a `StoreUnavailableError`
unfoldable pub has_exception_handler : List HandlerKey → Bool
has_exception_handler [] = false
has_exception_handler (key ∷ handlers) =
    let rest = has_exception_handler handlers in if is_handling key then true else rest

-- `get_remote_address`
unfoldable pub get_remote_address : Request → Text
unfolding remote_or
get_remote_address r = remote_or r.client_host

-- `_default_key_func`
unfoldable pub default_principal : Text
default_principal = codes "__throttled_global_principal__"

-- `_route_template`
unfoldable pub route_template : Request → Text
route_template r = elim r.root_path [ none ↦ [] | some root_path ↦ root_path ] ++ r.path_format

-- a value of the route's arguments: a `Request`, or `none` for one of another type
unfoldable pub first_request : List (Option Request) → Option Request
first_request [] = none
first_request (some r ∷ values) = some r
first_request (none ∷ values) = first_request values

-- `_extract_request`
unfoldable pub extract_request : List (Option Request) → List (Option Request) → Outcome Request
unfolding first_request
extract_request args kwargs = elim (first_request kwargs) [
  | some r ↦ ok r
  | none ↦ elim (first_request args) [ some r ↦ ok r | none ↦ raised type_error ]
]

module _ ⦃F : Float⦄ where
  -- The state of a request: the object's, the hooks', and the attribute of `request.state`.
  abbrev pub State : Type 0 → Type 0
  State H = (World × H) × Option RateLimitContext

  -- A route function, applied to its arguments.
  abbrev pub Route : Type 0 → Type 0 → Type 0
  Route H A = Coro (State H) (Answer A)

  -- what `key_func` returns: a text, or a coroutine for one, which is user code on the user's state
  pub data KeyValue (H : Type 0) : Type 0 where
    plain : Text → KeyValue H
    awaitable : Coro H Text → KeyValue H

  abbrev pub KeyFunc : Type 0 → Type 0
  KeyFunc H = Request → Outcome (KeyValue H)

module _ ⦃F : Float⦄ where
  -- the exception of a check
  unfoldable pub failed_check : {A : Type 0} → Request → Exc → Answer A
  unfolding has_exception_handler
  failed_check r store_unavailable =
      if has_exception_handler r.exception_handlers
      then raised_by store_unavailable
      else service_unavailable
  failed_check r e = raised_by e

-- A coroutine on the second part of the state.
unfoldable pub beside : {S H A : Type 0} → Coro H A → Coro (S × H) A
beside (done e) = done e
beside (does g k) = does (λ w. (w.0, g w.1)) (λ w. beside (k w.1))
beside (awaits k) = awaits (λ b. beside (k b))

module _ ⦃F : Float⦄ {H : Type 0} where
  -- `_resolve_principal`
  unfoldable pub resolve_principal : Outcome (KeyValue H) → Coro (World × H) Text
  unfolding beside
  resolve_principal (raised e) = done (failed e)
  resolve_principal (ok (plain principal)) = done (returned principal)
  resolve_principal (ok (awaitable principal)) = beside principal

  -- `wrapper` behind its check
  unfoldable pub answered : {A : Type 0} → Request → Route H A → Ending RateLimitResult → Route H A
  unfolding failed_check
  answered r func cancelled = done cancelled
  answered r func (failed e) = done (returned (failed_check r e))
  answered r func (returned result) =
      let context : RateLimitContext = record {
        result = result;
        headers = default_header_policy;
      } in
      if result.limited
      then done (returned (rate_limit_exceeded context))
      else does (λ s. (s.0, some context)) (λ _. func)

module _ ⦃Q : Quoting⦄ where
  -- the key of a check
  unfoldable pub key_of : Request → Text → Text
  unfolding route_template compose_key
  key_of r principal =
      compose_key (record { method = r.method; route = route_template r; principal = principal })

module _ ⦃F : Float⦄ ⦃U : Unicode⦄ ⦃Q : Quoting⦄ {H : Type 0} where
  -- `_check`
  unfoldable pub check :
      AsyncThrottled H → KeyFunc H → Request → Env → Coro (World × H) RateLimitResult
  unfolding resolve_principal key_of Throttled.limit
  check t key_func r env = resolve_principal (key_func r) >>= λ principal.
      Throttled.limit t (some (key_of r principal)) (int (pos 1)) none env

  unfoldable pub checked :
      {A : Type 0} → AsyncThrottled H → KeyFunc H → Route H A → Request → Env → Route H A
  unfolding check answered lift and_then
  checked t key_func func r env = and_then (lift (check t key_func r env)) (answered r func)

  -- `wrapper`, with the values of its positional and of its keyword arguments
  unfoldable pub wrapper :
      {A : Type 0}
      → AsyncThrottled H
      → KeyFunc H
      → Route H A
      → List (Option Request)
      → List (Option Request)
      → Env
      → Route H A
  unfolding extract_request checked
  wrapper t key_func func args kwargs env = elim (extract_request args kwargs) [
    | raised e ↦ done (returned (raised_by e))
    | ok r ↦ checked t key_func func r env
  ]

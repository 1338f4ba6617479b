-- ===== src/Flask/View.antt =====
-- throttled/contrib/flask/limiter.py: the wrapper of a view, with its check.
use throttled_py.Action.{Exc, store_unavailable, Outcome, ok, raised, Action}
use throttled_py.Common.{
  ℕ, Bool, true, false, Option, none, some, List, [], ◌∷◌, ◌++◌, if◌then◌else◌,
}
use throttled_py.Common.Float.{Float, int}
use throttled_py.Common.Int.{pos}
use throttled_py.Common.Text.{Text, str_eq}
use throttled_py.Common.Unicode.{Unicode}
use throttled_py.Flask.Headers.{RateLimitContext, default_header_policy}
use throttled_py.Flask.Keys.{Quoting, KeyParts, Request, compose_key}
use throttled_py.Quota.{RateLimitResult}
use throttled_py.Throttled.{Throttled, World, Env, limit}

-- Exception classes that an error handler can be registered for.
pub data ExceptionClass : Type 0 where
  exception base_throttled_error store_unavailable_error : ExceptionClass
  -- a class that is no base class of `StoreUnavailableError`
  other : ℕ → ExceptionClass

-- `registered is not Exception and issubclass(StoreUnavailableError, registered)`
unfoldable pub handles : ExceptionClass → Bool
handles exception = false
handles base_throttled_error = true
handles store_unavailable_error = true
handles (other n) = false

-- `app.error_handler_spec`: by scope, the classes for each status code
abbrev pub HandlerSpec : Type 0
HandlerSpec = List (Option Text × List (List ExceptionClass))

abbrev same_scope : Option Text → Option Text → Bool
same_scope none none = true
same_scope (some s) (some t) = str_eq s t
same_scope _ _ = false

abbrev concat : List (List ExceptionClass) → List ExceptionClass
concat [] = []
concat (xs ∷ xss) = xs ++ concat xss

-- the classes of one scope
unfoldable pub scope_types : Option Text → HandlerSpec → List ExceptionClass
scope_types scope [] = []
scope_types scope ((s, codes) ∷ spec) =
    let rest = scope_types scope spec in if same_scope s scope then concat codes else rest

-- `_registered_handler_types`
unfoldable pub registered_handler_types : List Text → HandlerSpec → List ExceptionClass
unfolding scope_types
registered_handler_types [] spec = scope_types none spec
registered_handler_types (blueprint ∷ blueprints) spec =
    scope_types (some blueprint) spec ++ registered_handler_types blueprints spec

abbrev any_handles : List ExceptionClass → Bool
any_handles [] = false
any_handles (c ∷ cs) = let rest = any_handles cs in if handles c then true else rest

-- `_has_error_handler`, on a `StoreUnavailableError`
unfoldable pub has_error_handler : Request → HandlerSpec → Bool
unfolding registered_handler_types handles
has_error_handler r spec = any_handles (registered_handler_types r.blueprints spec)

-- `_route_template`
unfoldable pub route_template : Request → Text
route_template r = elim r.url_rule [ none ↦ r.path | some rule ↦ rule ]

module _ ⦃F : Float⦄ where
  -- What leaves the wrapper: the view's value, an exception of the library or of the user's code, an
  -- HTTP 503, or an HTTP 429 with its context.
  pub data Answer (A : Type 0) : Type 0 where
    returned : A → Answer A
    raised_by : Exc → Answer A
    service_unavailable : Answer A
    rate_limit_exceeded : RateLimitContext → Answer A

  -- An answer that the view did not give.
  abbrev pub IsRefusal : {A : Type 0} → Answer A → Type 0
  IsRefusal (returned a) = ⊥
  IsRefusal _ = Unit

  -- The state of a request: the object's, the hooks', and the slot of `flask.g`.
  abbrev pub State : Type 0 → Type 0
  State H = (World × H) × Option RateLimitContext

  -- A view function.
  abbrev pub View : Type 0 → Type 0 → Type 0
  View H A = State H → Answer A × State H

  -- the exception of a check: a `StoreUnavailableError` without a handler becomes an HTTP 503
  unfoldable pub failed : {A : Type 0} → Request → HandlerSpec → Exc → Answer A
  unfolding has_error_handler
  failed r spec store_unavailable =
      if has_error_handler r spec then raised_by store_unavailable else service_unavailable
  failed r spec e = raised_by e

  -- `wrapper` behind its check
  unfoldable pub answered :
      {H A : Type 0}
      → Request
      → HandlerSpec
      → View H A
      → Option RateLimitContext
      → Outcome RateLimitResult × (World × H)
      → Answer A × State H
  unfolding failed
  answered r spec func slot (raised e, s) = (failed r spec e, (s, slot))
  answered r spec func slot (ok result, s) =
      let context : RateLimitContext = record {
        result = result;
        headers = default_header_policy;
      } in
      if result.limited then (rate_limit_exceeded context, (s, slot)) else func (s, some context)

module _ ⦃F : Float⦄ ⦃U : Unicode⦄ ⦃Q : Quoting⦄ {H : Type 0} where
  -- `_check` behind the call of `key_func`
  unfoldable pub check_principal :
      Throttled H → Request → Outcome Text → Env → Action (World × H) RateLimitResult
  unfolding compose_key route_template limit
  check_principal t r (raised e) env s = (raised e, s)
  check_principal t r (ok principal) env s =
      let parts : KeyParts = record {
        method = r.method;
        route = route_template r;
        principal = principal;
      } in
      limit t (some (compose_key parts)) (int (pos 1)) none env s

  unfoldable pub check :
      Throttled H → (Request → Outcome Text) → Request → Env → Action (World × H) RateLimitResult
  unfolding check_principal
  check t key_func r env = check_principal t r (key_func r) env

  unfoldable pub wrapper :
      {A : Type 0}
      → Throttled H
      → (Request → Outcome Text)
      → HandlerSpec
      → View H A
      → Request
      → Env
      → View H A
  unfolding check answered
  wrapper t key_func spec func r env (s, slot) =
      answered r spec func slot (check t key_func r env s)

-- ===== src/Flask/Headers.antt =====
-- throttled/contrib/flask/headers.py, and the headers of exceptions.py and of the `after_request` hook.
use throttled_py.Common.{
  ◌+◌, ◌≡◌, refl, ap, ◌∙◌, Bool, true, false, Option, none, some, [], ◌∷◌, arith, if◌then◌else◌,
}
use throttled_py.Common.Float.{Float, ceil, Num, int, float}
use throttled_py.Common.Int.{ℤ, pos, negsuc}
use throttled_py.Common.Text.{Text, codes, decimal, str_eq, eq_of_str_eq}
use throttled_py.Dict.{Dict, lookup, assign}
use throttled_py.Dict.Laws.{lookup-assign}
use throttled_py.Quota.{RateLimitResult, RateLimitState}

pub record RateLimitHeaderPolicy : Type 0 where
  pub limit : Text
  pub remaining : Text
  pub reset : Text
  pub retry_after : Text

-- `_DEFAULT_HEADER_POLICY`
abbrev pub default_header_policy : RateLimitHeaderPolicy
default_header_policy = record {
  limit = codes "RateLimit-Limit";
  remaining = codes "RateLimit-Remaining";
  reset = codes "RateLimit-Reset";
  retry_after = codes "Retry-After";
}

-- `str` of an integer
unfoldable pub str_int : ℤ → Text
str_int (pos n) = decimal n
str_int (negsuc n) = b'-' ∷ decimal (n + 1)

-- The first value that is there.
abbrev pub or_else : Option Text → Option Text → Option Text
or_else (some v) other = some v
or_else none other = other

-- The headers of a response, which are a class of werkzeug. The law states that `setdefault` gives a
-- value to the names without one that are the same name for that class.
pub record ResponseHeaders : Type 1 where
  pub Headers : Type 0
  pub same : Text → Text → Bool
  pub get : Text → Headers → Option Text
  pub setdefault : Text → Text → Headers → Headers
  pub get-setdefault :
      (name value other : Text) (headers : Headers)
      → get other (setdefault name value headers)
        ≡ or_else (get other headers) (if same name other then some value else none)

-- The value of the first item with the same name.
abbrev pub first_same : (Text → Text → Bool) → Text → Dict Text → Option Text
first_same same other [] = none
first_same same other ((name, value) ∷ headers) =
    if same name other then some value else first_same same other headers

module _ ⦃R : ResponseHeaders⦄ where
  -- `for name, value in headers.items(): response.headers.setdefault(name, value)`
  unfoldable pub set_defaults : Dict Text → R.Headers → R.Headers
  set_defaults [] response = response
  set_defaults ((name, value) ∷ headers) response =
      set_defaults headers (R.setdefault name value response)

  or_else_assoc : (a b c : Option Text) → or_else (or_else a b) c ≡ or_else a (or_else b c)
  or_else_assoc none b c = refl
  or_else_assoc (some v) b c = refl

  or_else-if :
      (b : Bool) (v : Text) (o : Option Text)
      → or_else (if b then some v else none) o ≡ (if b then some v else o)
  or_else-if true v o = refl
  or_else-if false v o = refl

  get-set_defaults :
      (headers : Dict Text) (response : R.Headers) (other : Text)
      → R.get other (set_defaults headers response)
        ≡ or_else (R.get other response) (first_same R.same other headers)
  unfolding set_defaults
  get-set_defaults [] response other = ground arith
  get-set_defaults ((name, value) ∷ headers) response other =
      let set = if R.same name other then some value else none in
      let rest = first_same R.same other headers in
      get-set_defaults headers (R.setdefault name value response) other
      ∙ ap (λ o. or_else o rest) (R.get-setdefault name value other response)
      ∙ or_else_assoc (R.get other response) set rest
      ∙ ap (or_else (R.get other response)) (or_else-if (R.same name other) value rest)

module _ ⦃F : Float⦄ where
  pub record RateLimitContext : Type 0 where
    pub result : RateLimitResult
    pub headers : RateLimitHeaderPolicy

  -- `math.ceil` of an int or a float
  unfoldable pub ceil_num : Num → ℤ
  ceil_num (int z) = z
  ceil_num (float r) = ceil r

  -- `_inject_rate_limit_headers`; a result always has a state
  unfoldable pub inject_rate_limit_headers : Dict Text → RateLimitContext → Bool → Dict Text
  unfolding str_int ceil_num
  inject_rate_limit_headers headers context include_retry_after =
      let state = context.result.state in
      let policy = context.headers in
      let limited = assign policy.limit (decimal state.limit) headers in
      let remaining = assign policy.remaining (str_int state.remaining) limited in
      let reset = assign policy.reset (str_int (ceil_num state.reset_after)) remaining in
      if include_retry_after
      then assign policy.retry_after (str_int (ceil_num state.retry_after)) reset
      else reset

  -- `RateLimitExceededError.get_headers`, on the headers of the base class
  unfoldable pub error_headers : RateLimitContext → Dict Text → Dict Text
  unfolding inject_rate_limit_headers
  error_headers context base = inject_rate_limit_headers base context true

module _ ⦃F : Float⦄ ⦃R : ResponseHeaders⦄ where
  -- `_apply_rate_limit_headers`: the context that the request left, and the headers of the response
  unfoldable pub apply_rate_limit_headers : Option RateLimitContext → R.Headers → R.Headers
  unfolding inject_rate_limit_headers set_defaults
  apply_rate_limit_headers none response = response
  apply_rate_limit_headers (some context) response =
      set_defaults (inject_rate_limit_headers [] context false) response

  -- The header of a name that the default policy gives to a state: the names are tried in their order.
  abbrev expected : Text → RateLimitState → Option Text
  expected other state =
      if R.same default_header_policy.limit other
      then some (decimal state.limit)
      else if R.same default_header_policy.remaining other
      then some (str_int state.remaining)
      else if R.same default_header_policy.reset other
      then some (str_int (ceil_num state.reset_after))
      else none

  -- Under the default policy, a response of a request that was checked has the headers that it had
  -- before; where it has none of a name, it has the limit, the remaining requests and the seconds to
  -- the reset, rounded up, of the state of the check. No other header is set, `Retry-After` included.
  pub apply-get :
      (result : RateLimitResult) (response : R.Headers) (other : Text)
      → R.get other (
          apply_rate_limit_headers
            (some (record { result = result; headers = default_header_policy }))
            response)
        ≡ or_else (R.get other response) (expected other result.state)
  unfolding apply_rate_limit_headers inject_rate_limit_headers assign str_eq
  apply-get result response other =
      get-set_defaults
        ((default_header_policy.limit, decimal result.state.limit)
          ∷ (default_header_policy.remaining, str_int result.state.remaining)
          ∷ (default_header_policy.reset, str_int (ceil_num result.state.reset_after))
          ∷ [])
        response other

-- Headers as a dict: the law of `setdefault` can hold.
unfoldable pub set_default : Text → Text → Dict Text → Dict Text
set_default name value headers = elim (lookup name headers) [
  | none ↦ assign name value headers
  | some _ ↦ headers
]

pub set_default-lookup :
    (name value other : Text) (headers : Dict Text)
    → lookup other (set_default name value headers)
      ≡ or_else (lookup other headers) (if str_eq name other then some value else none)
unfolding set_default
set_default-lookup name value other headers =
    ground (arith, lookup-assign name other value headers, eq_of_str_eq name other)

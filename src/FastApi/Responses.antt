-- ===== src/FastApi/Responses.antt =====
-- throttled/asyncio/contrib/fastapi/middleware.py and exceptions.py: the headers of the responses.
use throttled_py.Common.{
  ℕ, ◌≡◌, refl, Bool, true, false, Option, none, some, [], ◌∷◌, if◌then◌else◌,
}
use throttled_py.Common.Float.{Float}
use throttled_py.Common.Text.{Text, decimal, str_eq}
use throttled_py.Dict.{Dict, assign}
use throttled_py.Flask.Headers.{
  RateLimitContext, default_header_policy, str_int, ceil_num, inject_rate_limit_headers,
}
use throttled_py.Quota.{RateLimitResult}

-- The headers of a response, which are a class of starlette: `headers[name] = value` gives its value to
-- the names that are the same name for that class, and to no other.
pub record ResponseHeaders : Type 1 where
  pub Headers : Type 0
  pub same : Text → Text → Bool
  pub get : Text → Headers → Option Text
  pub set : Text → Text → Headers → Headers
  pub get-set :
      (name value other : Text) (headers : Headers)
      → get other (set name value headers)
        ≡ (if same name other then some value else get other headers)

module _ ⦃R : ResponseHeaders⦄ where
  -- `headers.update`
  unfoldable pub update : Dict Text → R.Headers → R.Headers
  update [] response = response
  update ((name, value) ∷ headers) response = update headers (R.set name value response)

module _ ⦃F : Float⦄ ⦃R : ResponseHeaders⦄ where
  -- `RateLimitMiddleware.dispatch` after `call_next`: the context of the request, and the headers of
  -- the response
  unfoldable pub dispatch : Option RateLimitContext → R.Headers → R.Headers
  unfolding inject_rate_limit_headers update
  dispatch none response = response
  dispatch (some context) response = update (inject_rate_limit_headers [] context false) response

module _ ⦃F : Float⦄ where
  -- `rate_limit_exceeded_handler`: the status and the headers of its response; the context is that of
  -- a `RateLimitExceededError`, `none` stands for another exception
  unfoldable pub rate_limit_exceeded_handler : Option RateLimitContext → ℕ × Dict Text
  unfolding inject_rate_limit_headers
  rate_limit_exceeded_handler none = (429, [])
  rate_limit_exceeded_handler (some context) = (429, inject_rate_limit_headers [] context true)

module _ ⦃F : Float⦄ ⦃R : ResponseHeaders⦄ where
  -- Under the default policy, the middleware gives a response of a checked route the limit, the
  -- remaining requests and the seconds to the reset, rounded up, of the state of the check, whatever
  -- the response had under those names; the last of the names wins where two are the same name. All
  -- other headers stay as they are.
  pub dispatch-get :
      (result : RateLimitResult) (response : R.Headers) (other : Text)
      → R.get other
          (dispatch (some (record { result = result; headers = default_header_policy })) response)
        ≡ (if R.same default_header_policy.reset other
            then some (str_int (ceil_num result.state.reset_after))
            else if R.same default_header_policy.remaining other
            then some (str_int result.state.remaining)
            else if R.same default_header_policy.limit other
            then some (decimal result.state.limit)
            else R.get other response)
  unfolding dispatch inject_rate_limit_headers assign str_eq update
  dispatch-get result response other =
      let limited = decimal result.state.limit in
      let remaining = str_int result.state.remaining in
      let one = R.set default_header_policy.limit limited response in
      let two = R.set default_header_policy.remaining remaining one in
      rw
        (
          R.get-set default_header_policy.reset (str_int (ceil_num result.state.reset_after)) other
              two,
          R.get-set default_header_policy.remaining remaining other one,
          R.get-set default_header_policy.limit limited other response,
        )
        refl

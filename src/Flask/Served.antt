-- ===== src/Flask/Served.antt =====
-- What a wrapped view serves.
use throttled_py.Action.{Exc, store_unavailable, Outcome, ok, raised}
use throttled_py.Common.{
  ℕ, ◌+◌, ◌≡◌, ◌⊎◌, inl, inr, refl, false, Option, none, some, [], Bool-cases, arith,
}
use throttled_py.Common.Float.{Float, int}
use throttled_py.Common.Int.{pos}
use throttled_py.Common.Text.{Text}
use throttled_py.Common.Unicode.{Unicode}
use throttled_py.Flask.Headers.{RateLimitContext, default_header_policy}
use throttled_py.Flask.Keys.{Quoting, Request}
use throttled_py.Quota.{RateLimitResult}
use throttled_py.Throttled.Grants.{Tells, grants}
use throttled_py.Throttled.Guards.{limit-Tells}
use throttled_py.Throttled.{Throttled, World, Env}
use throttled_py.Flask.View.{
  HandlerSpec, has_error_handler, Answer, rate_limit_exceeded, IsRefusal, State, View, failed,
  answered, check_principal, check, wrapper,
}

module _ ⦃F : Float⦄ where
  failed-IsRefusal :
      (A : Type 0) (r : Request) (spec : HandlerSpec) (e : Exc)
      → IsRefusal (failed {A = A} r spec e)
  unfolding failed
  failed-IsRefusal A r spec store_unavailable = elim (Bool-cases (has_error_handler r spec)) [
    | inl handled ↦ rw handled tt
    | inr unhandled ↦ rw unhandled tt
  ]
  failed-IsRefusal A r spec e = tt

module _ ⦃F : Float⦄ {H : Type 0} where
  -- What a wrapped view did: it answered without a grant and without touching the slot, with an
  -- exception, an HTTP 503 or an HTTP 429; or the view ran, after one grant, with its context set.
  abbrev pub Served :
      {A : Type 0} → ℕ → Option RateLimitContext → View H A → Answer A × State H → Type 0
  Served {A} n slot func done =
      ((answer : Answer A) × (s : World × H) × IsRefusal answer
        × (done ≡ (answer, (s, slot)))
        × (grants s.0 ≡ n))
      ⊎ ((s : World × H) × (result : RateLimitResult) × (result.limited ≡ false)
          × (done ≡ func (s, some (record { result = result; headers = default_header_policy })))
          × (grants s.0 ≡ n + 1))

  answered-Served :
      {A : Type 0} (r : Request) (spec : HandlerSpec) (func : View H A)
      (slot : Option RateLimitContext) (n : ℕ) (done : Outcome RateLimitResult × (World × H))
      → Tells n (done.0, done.1.0)
      → Served n slot func (answered r spec func slot done)
  unfolding answered
  answered-Served {A} r spec func slot n (raised e, s) h =
      inl (failed r spec e, s, failed-IsRefusal A r spec e, refl, omega (arith, h))
  answered-Served r spec func slot n (ok result, s) h = elim (Bool-cases result.limited) [
    | inl limited ↦
        let told = rw limited at h in
        let context : RateLimitContext = record {
          result = result;
          headers = default_header_policy;
        } in
        inl (rate_limit_exceeded context, s, tt, rw limited refl, omega (arith, told))
    | inr free ↦ let told = rw free at h in inr (s, result, free, rw free refl, omega (arith, told))
  ]

module _ ⦃F : Float⦄ ⦃U : Unicode⦄ ⦃Q : Quoting⦄ {H : Type 0} where
  check-Tells :
      (t : Throttled H) (r : Request) (principal : Outcome Text) (env : Env) (w : World) (h : H)
      → t.hooks ≡ []
      → let done = check_principal t r principal env (w, h) in Tells (grants w) (done.0, done.1.0)
  unfolding check_principal
  check-Tells t r (raised e) env w h bare = omega arith
  check-Tells t r (ok principal) env w h bare =
      limit-Tells t (some _) (int (pos 1)) none env w h bare

  -- A wrapped view without hooks runs only right after its limiter granted one request, with the
  -- context of a result that is not limited in the slot; in all other cases no request was granted,
  -- the slot is as it was, and the answer is an exception, an HTTP 503 or an HTTP 429.
  pub wrapper-Served :
      {A : Type 0} (t : Throttled H) (key_func : Request → Outcome Text) (spec : HandlerSpec)
      (func : View H A) (r : Request) (env : Env) (w : World) (h : H)
      (slot : Option RateLimitContext)
      → t.hooks ≡ []
      → Served (grants w) slot func (wrapper t key_func spec func r env ((w, h), slot))
  unfolding wrapper check
  wrapper-Served t key_func spec func r env w h slot bare =
      answered-Served r spec func slot (grants w) (check t key_func r env (w, h))
        (check-Tells t r (key_func r) env w h bare)

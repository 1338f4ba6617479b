-- ===== src/FastApi/Served.antt =====
-- What a wrapped route serves, however its task is cancelled.
use throttled_py.Action.{Exc, store_unavailable, Outcome, ok, raised}
use throttled_py.Asyncio.Coro.{Ending, returned, failed, cancelled, Coro, done, does, awaits, lift}
use throttled_py.Asyncio.Coro.Count.{Pays, Pays-and_then, on_value-Pays, lift-Pays}
use throttled_py.Asyncio.Coro.Under.{under, under-and_then, under-Pays}
use throttled_py.Asyncio.Throttled.{AsyncThrottled}
use throttled_py.Asyncio.Throttled.Concurrent.{count, paid, free, limit-Pays}
use throttled_py.Common.{
  ℕ, ◌+◌, ◌≡◌, ◌⊎◌, inl, inr, refl, Bool, false, Option, none, some, List, [], Bool-cases, arith,
}
use throttled_py.Common.Float.{Float, int}
use throttled_py.Common.Int.{pos}
use throttled_py.Common.Unicode.{Unicode}
use throttled_py.FastApi.{
  Request, State, Route, KeyValue, plain, awaitable, KeyFunc, beside, resolve_principal,
  has_exception_handler, failed_check, answered, key_of, check, checked, extract_request, wrapper,
}
use throttled_py.Flask.Headers.{RateLimitContext, default_header_policy}
use throttled_py.Flask.Keys.{Quoting}
use throttled_py.Flask.View.{Answer, rate_limit_exceeded, raised_by, IsRefusal}
use throttled_py.Quota.{RateLimitResult}
use throttled_py.Throttled.{World, Env}
use throttled_py.Throttled.Grants.{grants}

module _ ⦃F : Float⦄ where
  failed_check-IsRefusal :
      (A : Type 0) (r : Request) (e : Exc) → IsRefusal (failed_check {A = A} r e)
  unfolding failed_check
  failed_check-IsRefusal A r store_unavailable =
      elim (Bool-cases (has_exception_handler r.exception_handlers)) [
        | inl handled ↦ rw handled tt
        | inr unhandled ↦ rw unhandled tt
      ]
  failed_check-IsRefusal A r e = tt

  abbrev granted : {H : Type 0} → State H → ℕ
  granted s = grants s.0.0

  -- What a wrapped route did: it ended without a grant, cancelled or with an exception, an HTTP 503 or
  -- an HTTP 429; or the route ran, right after one grant, with its context set.
  abbrev pub Served :
      {H A : Type 0} → ℕ → Route H A → Ending (Answer A) × List Bool × State H → Type 0
  Served {H} {A} n func end =
      ((grants end.2.0.0 ≡ n)
        × ((end.0 ≡ cancelled)
            ⊎ ((answer : Answer A) × IsRefusal answer × (end.0 ≡ returned answer))))
      ⊎ ((s : World × H) × (stops : List Bool) × (result : RateLimitResult) × (result.limited
            ≡ false)
          × (grants s.0 ≡ n + 1)
          × (end
              ≡ under stops func
                  (s, some (record { result = result; headers = default_header_policy }))))

  answered-Served :
      {H A : Type 0} (r : Request) (func : Route H A) (n : ℕ) (e : Ending RateLimitResult)
      (stops : List Bool) (s : State H)
      → grants s.0.0 ≡ n + paid e
      → Served n func (under stops (answered r func e) s)
  unfolding answered under
  answered-Served {A} r func n cancelled stops s h = inl (omega (arith, h), inl refl)
  answered-Served {A} r func n (failed e) stops s h =
      inl (omega (arith, h), inr (failed_check r e, failed_check-IsRefusal A r e, refl))
  answered-Served {A} r func n (returned result) stops s h = elim (Bool-cases result.limited) [
    | inl limited ↦
        let told = rw limited at h in
        let context : RateLimitContext = record {
          result = result;
          headers = default_header_policy;
        } in
        inl
          (rw limited (omega (arith, told)), inr (rate_limit_exceeded context, tt, rw limited refl))
    | inr unlimited ↦
        let told = rw unlimited at h in
        inr (s.0, stops, result, unlimited, omega (arith, told), rw unlimited refl)
  ]

  beside-Pays : {H A : Type 0} (c : Coro H A) → Pays {S = World × H} count free 0 (beside c)
  unfolding beside
  beside-Pays (done e) = refl
  beside-Pays (does g k) = λ w. (0, omega arith, beside-Pays (k w.1))
  beside-Pays (awaits k) = (refl, λ stop. beside-Pays (k stop))

  principal-Pays :
      {H : Type 0} (key : Outcome (KeyValue H))
      → Pays {S = World × H} count free 0 (resolve_principal key)
  unfolding resolve_principal
  principal-Pays (raised e) = refl
  principal-Pays (ok (plain principal)) = refl
  principal-Pays (ok (awaitable principal)) = beside-Pays principal

module _ ⦃F : Float⦄ ⦃U : Unicode⦄ ⦃Q : Quoting⦄ {H : Type 0} where
  check-Pays :
      (t : AsyncThrottled H) (key_func : KeyFunc H) (r : Request) (env : Env)
      → t.hooks ≡ []
      → Pays count paid 0 (check t key_func r env)
  unfolding check
  check-Pays t key_func r env bare =
      Pays-and_then count free paid 0 (resolve_principal (key_func r)) _
        (principal-Pays (key_func r))
        (on_value-Pays count free paid _ (λ _. refl) refl
          (λ principal. limit-Pays t (some (key_of r principal)) (int (pos 1)) none env bare))

  checked-Served :
      {A : Type 0} (t : AsyncThrottled H) (key_func : KeyFunc H) (func : Route H A) (r : Request)
      (env : Env) (stops : List Bool) (s : State H)
      → t.hooks ≡ []
      → Served (granted s) func (under stops (checked t key_func func r env) s)
  unfolding checked
  checked-Served t key_func func r env stops s bare =
      let call = lift (check t key_func r env) in
      let done = under stops call s in
      let counted = under-Pays granted paid 0 stops call s (
        lift-Pays (Option RateLimitContext) count paid 0 (check t key_func r env)
          (check-Pays t key_func r env bare)) in
      rw (under-and_then stops call (answered r func) s)
        (answered-Served r func (granted s) done.0 done.1 done.2 (omega (arith, counted)))

  -- However its task is cancelled, a wrapped route without hooks runs only right after its limiter
  -- granted one request, with the context of a result that is not limited in the state of the request,
  -- and then its run is that of the route itself; in all other cases no request was granted, and the
  -- task was cancelled or ended with an exception, an HTTP 503 or an HTTP 429.
  pub fastapi_wrapper-Served :
      {A : Type 0} (t : AsyncThrottled H) (key_func : KeyFunc H) (func : Route H A)
      (args kwargs : List (Option Request)) (env : Env) (stops : List Bool) (s : State H)
      → t.hooks ≡ []
      → Served (grants s.0.0) func (under stops (wrapper t key_func func args kwargs env) s)
  unfolding wrapper under
  fastapi_wrapper-Served t key_func func args kwargs env stops s bare =
      elim (extract_request args kwargs)
        as (λ found. Served (grants s.0.0) func (
          under stops
            (elim found [
              | raised e ↦ done (returned (raised_by e))
              | ok r ↦ checked t key_func func r env
            ])
            s)) [
              | raised e ↦ inl (refl, inr (raised_by e, tt, refl))
              | ok r ↦ checked-Served t key_func func r env stops s bare
            ]

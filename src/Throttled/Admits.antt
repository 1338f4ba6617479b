-- ===== src/Throttled/Admits.antt =====
-- A call of `limit` admits at most one request, whatever its retries and its hooks do.
use throttled_py.Action.{Outcome, ok, raised, pure, after}
use throttled_py.Common.{
  ℕ, ◌≡◌, refl, ap, true, not, ◌||◌, Option, none, some, List, [], Bool-cases, inl, inr, arith,
  if◌then◌else◌,
}
use throttled_py.Common.Float.{Float, Real, Num, to_float}
use throttled_py.Common.Text.{Text}
use throttled_py.Common.Unicode.{Unicode}
use throttled_py.Hooks.{HookContext}
use throttled_py.Hooks.Once.{AllCallOnce, Spent, chain-SpendsOnce}
use throttled_py.Quota.{RateLimitResult, Clock}
use throttled_py.Registry.{Instance, make_limiter}
use throttled_py.Registry.Builtin.{memory_store}
use throttled_py.Throttled.{
  Throttled, World, Round, Env, retry, keep_limiter, check, limiter_from, limiter, ask, do_limit,
  context_of, checked_limit, limit_args, limit_with, limit,
}
use throttled_py.Throttled.Grants.{granted, grants, Tells, retry-Tells}
use throttled_py.Throttled.Logic.{eq_f, non_blocking}

module _ ⦃F : Float⦄ where
  keep_limiter-answers :
      (made : Outcome Instance) (w : World) → (keep_limiter made w).1.answers ≡ w.answers
  unfolding keep_limiter
  keep_limiter-answers (ok i) w = refl
  keep_limiter-answers (raised e) w = refl

  check-Tells :
      (key : Text) (cost : ℕ) (c : Clock) (done : Outcome Instance × World)
      → Tells (grants done.1) (after (λ i. check i key cost c) done)
  unfolding check
  check-Tells key cost c (ok i, w) = refl
  check-Tells key cost c (raised e, w) = omega arith

  Spent-of_told :
      (n : ℕ) (done : Outcome RateLimitResult × World)
      → Tells n done
      → Spent n done.0 (grants done.1)
  Spent-of_told n (ok r, w) h = elim (Bool-cases r.limited) [
    | inl limited ↦ let told = rw limited at h in omega (arith, told)
    | inr free ↦ let told = rw free at h in omega (arith, told)
  ]
  Spent-of_told n (raised e, w) h = omega arith

module _ ⦃F : Float⦄ ⦃U : Unicode⦄ {H : Type 0} where
  pub limiter-answers :
      (t : Throttled H) (found : Option Instance) (w : World)
      → (limiter_from t found w).1.answers ≡ w.answers
  unfolding limiter_from
  limiter-answers t (some i) w = refl
  limiter-answers t none w =
      keep_limiter-answers (make_limiter t.limiter_cls t.quota memory_store [] t.key_prefix) w

  ask-Tells :
      (t : Throttled H) (key : Text) (cost : ℕ) (c : Clock) (w : World)
      → Tells (grants w) (ask t key cost c w)
  unfolding ask limiter
  ask-Tells t key cost c w =
      rw (ap granted (limiter-answers t w.limiter w)) at (check-Tells key cost c (limiter t w))

  decided-Tells :
      (t : Throttled H) (key : Text) (cost : ℕ) (timeout start : Real) (rounds : List Round) (n : ℕ)
      (done : Outcome RateLimitResult × World)
      → Tells n done
      → Tells n (
          after
            (λ result.
              if eq_f timeout non_blocking || not result.limited
              then pure result
              else retry (ask t key cost) timeout start rounds result)
            done)
  decided-Tells t key cost timeout start rounds n (raised e, w) h = h
  decided-Tells t key cost timeout start rounds n (ok result, w) h =
      elim (Bool-cases (eq_f timeout non_blocking || not result.limited)) [
        | inl over ↦ rw over h
        | inr more ↦
            let limited : result.limited ≡ true = ground arith in
            let told = rw limited at h in
            let same : grants w ≡ n = omega (arith, told) in
            rw more (
              rw same at (
                retry-Tells (ask t key cost) timeout start rounds (ask-Tells t key cost) result w
                  limited))
      ]

  -- The result of a check with its retries tells what the limiter granted: one request if it is not
  -- limited, and none if it is or if an exception is raised.
  pub do_limit-Tells :
      (t : Throttled H) (key : Text) (cost : ℕ) (timeout : Real) (env : Env) (w : World)
      → Tells (grants w) (do_limit t key cost timeout env w)
  unfolding do_limit
  do_limit-Tells t key cost timeout env w =
      decided-Tells t key cost timeout env.start_time env.rounds (grants w)
        (ask t key cost env.clock w) (ask-Tells t key cost env.clock w)

  args-Spent :
      (t : Throttled H) (args : Outcome (ℕ × Text × Num)) (env : Env) (w : World) (h : H)
      → ((context : HookContext) → AllCallOnce context t.hooks)
      → let done = limit_with t args env (w, h) in Spent (grants w) done.0 (grants done.1.0)
  unfolding limit_with checked_limit
  args-Spent t (raised e) env w h once = omega arith
  args-Spent t (ok (n, k, timeout)) env w h once =
      let context = context_of t k n in
      chain-SpendsOnce grants t.hooks (do_limit t k n (to_float timeout) env) context (once context)
        (λ w'.
          Spent-of_told (grants w') (do_limit t k n (to_float timeout) env w')
            (do_limit-Tells t k n (to_float timeout) env w'))
        (w, h)

  -- Behind hooks that call `call_next` at most once each, a call of `limit` is granted at most one
  -- request by its limiter, however long it retries, and none if it raises.
  pub limit-grants_once :
      (t : Throttled H) (key : Option Text) (cost : Num) (timeout : Option Num) (env : Env)
      (w : World) (h : H)
      → ((context : HookContext) → AllCallOnce context t.hooks)
      → let done = limit t key cost timeout env (w, h) in Spent (grants w) done.0 (grants done.1.0)
  unfolding limit
  limit-grants_once t key cost timeout env w h once =
      args-Spent t (limit_args t key cost timeout) env w h once

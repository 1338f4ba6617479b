-- ===== src/Throttled/Finishes.antt =====
-- A call of `limit` returns.
use throttled_py.Action.{Outcome, ok, raised, pure, after}
use throttled_py.Common.{
  ℕ, ◌≡◌, ◌⊎◌, inl, inr, refl, Bool, true, false, not, ◌||◌, Option, none, some, [], Bool-cases,
  if◌then◌else◌,
}
use throttled_py.Common.Float.{Float, Real, Num, to_float}
use throttled_py.Common.Text.{Text}
use throttled_py.Common.Unicode.{Unicode}
use throttled_py.Hooks.Keeps.{chain-keeps}
use throttled_py.Quota.{RateLimitResult, Clock}
use throttled_py.Registry.{Instance, make_limiter}
use throttled_py.Registry.Builtin.{memory_store}
use throttled_py.Throttled.{
  Throttled, World, Env, retry, keep_limiter, check, limiter_from, limiter, ask, do_limit,
  context_of, checked_limit, limit_args, limit_with, limit,
}
use throttled_py.Throttled.Ends.{Suffices, Same, retry-Same}
use throttled_py.Throttled.Logic.{eq_f, non_blocking}

module _ ⦃F : Float⦄ where
  keep_limiter-Same :
      (made : Outcome Instance) (u : Bool) (w : World) → Same u w → Same u (keep_limiter made w).1
  unfolding keep_limiter
  keep_limiter-Same (ok i) u w s = s
  keep_limiter-Same (raised e) u w s = s

  check-Same :
      (key : Text) (cost : ℕ) (c : Clock) (u : Bool) (done : Outcome Instance × World)
      → Same u done.1
      → Same u (after (λ i. check i key cost c) done).1
  unfolding check
  check-Same key cost c u (ok i, w) s = s
  check-Same key cost c u (raised e, w) s = s

  -- The timeout does not block, or the readings of the environment let every wait and the retries end.
  abbrev pub Ends : Real → Env → Type 0
  Ends timeout env = (eq_f timeout non_blocking ≡ true) ⊎ Suffices timeout env.start_time env.rounds

module _ ⦃F : Float⦄ ⦃U : Unicode⦄ {H : Type 0} where
  limiter-Same :
      (t : Throttled H) (found : Option Instance) (u : Bool) (w : World)
      → Same u w
      → Same u (limiter_from t found w).1
  unfolding limiter_from
  limiter-Same t (some i) u w s = s
  limiter-Same t none u w s =
      keep_limiter-Same (make_limiter t.limiter_cls t.quota memory_store [] t.key_prefix) u w s

  ask-Same :
      (t : Throttled H) (key : Text) (cost : ℕ) (u : Bool) (c : Clock) (w : World)
      → Same u w
      → Same u (ask t key cost c w).1
  unfolding ask limiter
  ask-Same t key cost u c w s =
      check-Same key cost c u (limiter t w) (limiter-Same t w.limiter u w s)

  decided-Same :
      (t : Throttled H) (key : Text) (cost : ℕ) (timeout : Real) (env : Env) (u : Bool)
      (done : Outcome RateLimitResult × World)
      → Ends timeout env
      → Same u done.1
      → Same u
          (after
            (λ result.
              if eq_f timeout non_blocking || not result.limited
              then pure result
              else retry (ask t key cost) timeout env.start_time env.rounds result)
            done).1
  decided-Same t key cost timeout env u (raised e, w) enough s = s
  decided-Same t key cost timeout env u (ok result, w) (inl at_once) s = rw at_once s
  decided-Same t key cost timeout env u (ok result, w) (inr enough) s =
      elim (Bool-cases (eq_f timeout non_blocking || not result.limited)) [
        | inl over ↦ rw over s
        | inr more ↦ rw more (
            retry-Same (ask t key cost) u timeout env.start_time env.rounds result w
              (ask-Same t key cost u) enough s)
      ]

  do_limit-Same :
      (t : Throttled H) (key : Text) (cost : ℕ) (timeout : Real) (env : Env) (u : Bool) (w : World)
      → Ends timeout env
      → Same u w
      → Same u (do_limit t key cost timeout env w).1
  unfolding do_limit
  do_limit-Same t key cost timeout env u w enough s =
      decided-Same t key cost timeout env u (ask t key cost env.clock w) enough
        (ask-Same t key cost u env.clock w s)

  with_args-Same :
      (t : Throttled H) (args : Outcome (ℕ × Text × Num)) (env : Env) (u : Bool) (w : World) (h : H)
      → ((n : ℕ) (k : Text) (timeout : Num)
          → args ≡ ok (n, k, timeout)
          → Ends (to_float timeout) env)
      → Same u w
      → Same u (limit_with t args env (w, h)).1.0
  unfolding limit_with checked_limit
  with_args-Same t (raised e) env u w h enough s = s
  with_args-Same t (ok (n, k, timeout)) env u w h enough s =
      chain-keeps (Same u) t.hooks (do_limit t k n (to_float timeout) env) (context_of t k n)
        (λ v p. do_limit-Same t k n (to_float timeout) env u v (enough n k timeout refl) p) (w, h) s

  -- A call of `limit` comes to its end, whatever its hooks do: if its timeout does not block, or if
  -- in each round one of the sleeps passes the timeout and after one of the rounds the timeout has
  -- elapsed, the readings given for its rounds do not run out.
  pub limit-finishes :
      (t : Throttled H) (key : Option Text) (cost : Num) (timeout : Option Num) (env : Env)
      (w : World) (h : H)
      → ((n : ℕ) (k : Text) (time : Num)
          → limit_args t key cost timeout ≡ ok (n, k, time)
          → Ends (to_float time) env)
      → w.unfinished ≡ false
      → (limit t key cost timeout env (w, h)).1.0.unfinished ≡ false
  unfolding limit
  limit-finishes t key cost timeout env w h enough s =
      with_args-Same t (limit_args t key cost timeout) env false w h enough s

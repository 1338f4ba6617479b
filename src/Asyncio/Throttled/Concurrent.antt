-- ===== src/Asyncio/Throttled/Concurrent.antt =====
-- Tasks on one event loop that call `limit` of objects on one store.
use throttled_py.Action.{Outcome, ok, raised}
use throttled_py.Asyncio.Coro.{
  Ending, returned, failed, cancelled, Coro, done, ending, act, suspend,
}
use throttled_py.Asyncio.Coro.Count.{
  Pays, Pays-and_then, suspend-Pays, on_value-Pays, lift-Pays, AllRest, total, schedule-counts,
}
use throttled_py.Asyncio.Coro.Tasks.{schedule, tasks}
use throttled_py.Asyncio.Hooks.{build_hook_chain}
use throttled_py.Asyncio.Throttled.{
  AsyncThrottled, wait_loop, wait, retry, ask, do_limit, limit_with, limit,
}
use throttled_py.Common.{
  ℕ, ◌+◌, ◌≡◌, refl, ap, ◌∙◌, true, false, Bool, Bool-cases, inl, inr, not, ◌||◌, Option, List, [],
  ◌∷◌, arith, if◌then◌else◌,
}
use throttled_py.Common.Float.{Float, Real, zero_f, minus, le, lt, Num, to_float}
use throttled_py.Common.Text.{Text}
use throttled_py.Common.Unicode.{Unicode}
use throttled_py.Registry.{Instance}
use throttled_py.Quota.{RateLimitResult, Clock}
use throttled_py.Throttled.{Throttled, World, Round, Env, check, limiter, limit_args}
use throttled_py.Throttled.Admits.{limiter-answers}
use throttled_py.Throttled.Grants.{grant, granted, grants}
use throttled_py.Throttled.Logic.{non_blocking, eq_f, is_exit_waiting}

module _ ⦃F : Float⦄ where
  -- What a task that ended so was granted: one request if it returned a result that is not limited.
  abbrev pub paid : Ending RateLimitResult → ℕ
  paid (returned r) = grant (ok r)
  paid (failed e) = 0
  paid cancelled = 0

  -- An ending that pays nothing.
  abbrev pub free : {A : Type 0} → Ending A → ℕ
  free e = 0

  wait_loop-Pays :
      (timeout retry_after start : Real) (readings : List Real)
      → Pays grants free 0 (wait_loop timeout retry_after start readings)
  unfolding wait_loop
  wait_loop-Pays timeout retry_after start [] = λ w. (0, omega arith, refl)
  wait_loop-Pays timeout retry_after start (now ∷ readings) = λ w. (
    0,
    omega arith,
    suspend-Pays grants free _ refl
        (elim (Bool-cases (is_exit_waiting now start retry_after timeout)) [
          | inl over ↦ rw over refl
          | inr more ↦ rw more (wait_loop-Pays timeout retry_after start readings)
        ]),
  )

  wait-Pays :
      (timeout retry_after : Real) (r : Round) → Pays grants free 0 (wait timeout retry_after r)
  unfolding wait
  wait-Pays timeout retry_after r = elim (Bool-cases (le retry_after zero_f)) [
    | inl soon ↦ rw soon refl
    | inr later ↦ rw later (wait_loop-Pays timeout retry_after r.wait_start r.readings)
  ]

  -- A check whose result ends the task, or is limited and followed by another one.
  decided-Pays :
      (over : Bool) (result : RateLimitResult) (again : Coro World RateLimitResult)
      → (over ≡ false → result.limited ≡ true)
      → (result.limited ≡ true → Pays grants paid 0 again)
      → Pays grants paid (grant (ok result)) (if over then done (returned result) else again)
  decided-Pays true result again h p = refl
  decided-Pays false result again h p = rw (h refl) (p (h refl))

  retry-Pays :
      (c : Clock → Coro World RateLimitResult) (timeout start : Real) (rounds : List Round)
      (result : RateLimitResult)
      → result.limited ≡ true
      → ((clock : Clock) → Pays grants paid 0 (c clock))
      → Pays grants paid 0 (retry c timeout start rounds result)
  unfolding retry
  retry-Pays c timeout start [] result limited h =
      elim (Bool-cases (lt timeout (to_float result.state.retry_after))) [
        | inl over ↦ rw (over, limited) refl
        | inr more ↦ rw more (λ w. (0, omega arith, rw limited refl))
      ]
  retry-Pays c timeout start (r ∷ rounds) result limited h =
      let retry_after = to_float result.state.retry_after in
      elim (Bool-cases (lt timeout retry_after)) [
        | inl over ↦ rw (over, limited) refl
        | inr more ↦ rw more (
            Pays-and_then grants free paid 0 (wait timeout retry_after r) _
              (wait-Pays timeout retry_after r)
              (on_value-Pays grants free paid _ (λ _. refl) refl
                (λ _. Pays-and_then grants paid paid 0 (c r.clock) _ (h r.clock) (
                  on_value-Pays grants paid paid _ (λ _. refl) refl
                    (λ next.
                      decided-Pays (not next.limited || le timeout (minus r.now start)) next
                        (retry c timeout start rounds next) (λ more. ground arith)
                        (λ again. retry-Pays c timeout start rounds next again h))))))
      ]

  paid-grant : (o : Outcome RateLimitResult) → grant o + 0 ≡ paid (ending o)
  paid-grant (ok r) = omega arith
  paid-grant (raised e) = refl

  check-Pays :
      (i : Instance) (key : Text) (cost : ℕ) (c : Clock)
      → Pays grants paid 0 (suspend (act (check i key cost c)))
  unfolding check
  check-Pays i key cost c = suspend-Pays grants paid _ refl (λ w.
      let done = i.cls.limit i.limiter key cost c w.backend in
      (grant done.0, refl, paid-grant done.0))

module _ ⦃F : Float⦄ ⦃U : Unicode⦄ {H : Type 0} where
  limiter-Pays : (t : Throttled H) → Pays grants free 0 (act (limiter t))
  unfolding limiter
  limiter-Pays t w = (0, ap granted (limiter-answers t w.limiter w) ∙ omega arith, refl)

  ask-Pays :
      (t : Throttled H) (key : Text) (cost : ℕ) (c : Clock) → Pays grants paid 0 (ask t key cost c)
  unfolding ask
  ask-Pays t key cost c =
      Pays-and_then grants free paid 0 (act (limiter t)) _ (limiter-Pays t)
        (on_value-Pays grants free paid _ (λ _. refl) refl (λ i. check-Pays i key cost c))

  do_limit-Pays :
      (t : Throttled H) (key : Text) (cost : ℕ) (timeout : Real) (env : Env)
      → Pays grants paid 0 (do_limit t key cost timeout env)
  unfolding do_limit
  do_limit-Pays t key cost timeout env =
      Pays-and_then grants paid paid 0 (ask t key cost env.clock) _ (ask-Pays t key cost env.clock)
        (on_value-Pays grants paid paid _ (λ _. refl) refl
          (λ result.
            decided-Pays (eq_f timeout non_blocking || not result.limited) result
              (retry (ask t key cost) timeout env.start_time env.rounds result)
              (λ more. ground arith)
              (λ again.
                retry-Pays (ask t key cost) timeout env.start_time env.rounds result again
                  (ask-Pays t key cost))))

module _ ⦃F : Float⦄ where
  -- The arguments of one call of `limit`, and what it reads.
  pub record Call : Type 0 where
    pub key : Option Text
    pub cost : Num
    pub timeout : Option Num
    pub env : Env

  abbrev pub count : {H : Type 0} → World × H → ℕ
  count w = grants w.0

module _ ⦃F : Float⦄ ⦃U : Unicode⦄ {H : Type 0} where
  -- One coroutine for each call.
  abbrev pub starts : AsyncThrottled H → List Call → List (Coro (World × H) RateLimitResult)
  starts t [] = []
  starts t (c ∷ calls) = limit t c.key c.cost c.timeout c.env ∷ starts t calls

  limit_with-Pays :
      (t : AsyncThrottled H) (args : Outcome (ℕ × Text × Num)) (env : Env)
      → t.hooks ≡ []
      → Pays count paid 0 (limit_with t args env)
  unfolding limit_with build_hook_chain
  limit_with-Pays t (raised e) env bare = refl
  limit_with-Pays t (ok (n, k, timeout)) env bare = rw bare (
      lift-Pays H grants paid 0 (do_limit t.fields k n (to_float timeout) env)
        (do_limit-Pays t.fields k n (to_float timeout) env))

  pub limit-Pays :
      (t : AsyncThrottled H) (key : Option Text) (cost : Num) (timeout : Option Num) (env : Env)
      → t.hooks ≡ []
      → Pays count paid 0 (limit t key cost timeout env)
  unfolding limit
  limit-Pays t key cost timeout env bare =
      limit_with-Pays t (limit_args t.fields key cost timeout) env bare

  starts-AllRest :
      (t : AsyncThrottled H) (calls : List Call)
      → t.hooks ≡ []
      → AllRest count paid (tasks (starts t calls))
  starts-AllRest t [] bare = tt
  starts-AllRest t (c ∷ calls) bare =
      let begun =
        suspend-Pays count paid (limit t c.key c.cost c.timeout c.env) refl
          (limit-Pays t c.key c.cost c.timeout c.env bare) in
      (begun.1, starts-AllRest t calls bare)

  total-starts :
      (t : AsyncThrottled H) (calls : List Call) → total count paid (tasks (starts t calls)) ≡ 0
  total-starts t [] = refl
  total-starts t (c ∷ calls) = omega (arith, total-starts t calls)

  -- For an object without hooks, whose calls of `limit` run as tasks of one event loop, and for every
  -- schedule of their turns, cancellations included, the limiter has granted one request more for each
  -- task that has returned a result that is not limited, and none for the others: those that are still
  -- suspended, those that returned a limited result, and those that failed or were cancelled.
  pub concurrent_limits-granted :
      (t : AsyncThrottled H) (calls : List Call) (turns : List (ℕ × Bool)) (w : World × H)
      → t.hooks ≡ []
      → let end = schedule turns (tasks (starts t calls)) w in
        grants end.1.0 ≡ grants w.0 + total count paid end.0
  concurrent_limits-granted t calls turns w bare =
      let counted =
        schedule-counts count paid turns (tasks (starts t calls)) w (starts-AllRest t calls bare) in
      omega (arith, counted, total-starts t calls)

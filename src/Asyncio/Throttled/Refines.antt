-- ===== src/Asyncio/Throttled/Refines.antt =====
-- Undisturbed, the object of the asynchronous package does what that of the other package does.
use throttled_py.Action.{Outcome, ok, raised, Action}
use throttled_py.Asyncio.Coro.{Coro, act, suspend, alone}
use throttled_py.Asyncio.Coro.Twin.{Twin, result_of, act-Twin, and_then-Twin}
use throttled_py.Asyncio.Hooks.Twins.{embed_all, chain-Twin}
use throttled_py.Asyncio.Throttled
use throttled_py.Asyncio.Throttled.{AsyncThrottled}
use throttled_py.Common.{ℕ, ◌≡◌, refl, Bool-cases, inl, inr, not, ◌||◌, Option, List, [], ◌∷◌}
use throttled_py.Common.Float.{Float, Real, zero_f, minus, le, lt, Num, to_float}
use throttled_py.Common.Text.{Text}
use throttled_py.Common.Unicode.{Unicode}
use throttled_py.Quota.{RateLimitResult, Clock}
use throttled_py.Throttled.{
  Throttled as SyncThrottled, World, Round, Env, check, limiter, limit_args, context_of, wait_loop,
  wait, end_round, retry, ask, do_limit, checked_limit, limit_with, limit,
}
use throttled_py.Throttled.Logic.{non_blocking, eq_f, get_wait_time, is_exit_waiting}

module _ ⦃F : Float⦄ where
  wait_loop-Twin :
      (timeout retry_after start : Real) (readings : List Real)
      → Twin
          (Throttled.wait_loop timeout retry_after start readings)
          (wait_loop timeout retry_after start readings)
  unfolding wait_loop Throttled.wait_loop alone
  wait_loop-Twin timeout retry_after start [] w = refl
  wait_loop-Twin timeout retry_after start (now ∷ readings) w =
      let w' = record w { sleeps = get_wait_time retry_after ∷ w.sleeps } in
      elim (Bool-cases (is_exit_waiting now start retry_after timeout)) [
        | inl over ↦ rw over refl
        | inr more ↦ rw more (wait_loop-Twin timeout retry_after start readings w')
      ]

  wait-Twin :
      (timeout retry_after : Real) (r : Round)
      → Twin (Throttled.wait timeout retry_after r) (wait timeout retry_after r)
  unfolding wait Throttled.wait alone
  wait-Twin timeout retry_after r w = elim (Bool-cases (le retry_after zero_f)) [
    | inl soon ↦ rw soon refl
    | inr later ↦ rw later (wait_loop-Twin timeout retry_after r.wait_start r.readings w)
  ]

  retry-Twin :
      (c : Clock → Coro World RateLimitResult) (m : Clock → Action World RateLimitResult)
      (timeout start : Real) (rounds : List Round) (result : RateLimitResult)
      → ((clock : Clock) → Twin (c clock) (m clock))
      → Twin (Throttled.retry c timeout start rounds result) (retry m timeout start rounds result)
  unfolding retry Throttled.retry end_round alone
  retry-Twin c m timeout start [] result t w =
      elim (Bool-cases (lt timeout (to_float result.state.retry_after))) [
        | inl over ↦ rw over refl
        | inr more ↦ rw more refl
      ]
  retry-Twin c m timeout start (r ∷ rounds) result t w =
      let retry_after = to_float result.state.retry_after in
      elim (Bool-cases (lt timeout retry_after)) [
        | inl over ↦ rw over refl
        | inr more ↦ rw more (
            and_then-Twin (Throttled.wait timeout retry_after r) (wait timeout retry_after r) _ _
              (wait-Twin timeout retry_after r)
              (λ _. and_then-Twin (c r.clock) (m r.clock) _ _ (t r.clock) (λ next v.
                elim (Bool-cases (not next.limited || le timeout (minus r.now start))) [
                  | inl over ↦ rw over refl
                  | inr again ↦ rw again (retry-Twin c m timeout start rounds next t v)
                ]))
              w)
      ]

module _ ⦃F : Float⦄ ⦃U : Unicode⦄ {H : Type 0} where
  ask-Twin :
      (t : SyncThrottled H) (key : Text) (cost : ℕ) (c : Clock)
      → Twin (Throttled.ask t key cost c) (ask t key cost c)
  unfolding ask Throttled.ask alone
  ask-Twin t key cost c =
      and_then-Twin (act (limiter t)) (limiter t) (λ i. suspend (act (check i key cost c)))
        (λ i. check i key cost c) (act-Twin (limiter t)) (λ i w. refl)

  do_limit-Twin :
      (t : SyncThrottled H) (key : Text) (cost : ℕ) (timeout : Real) (env : Env)
      → Twin (Throttled.do_limit t key cost timeout env) (do_limit t key cost timeout env)
  unfolding do_limit Throttled.do_limit alone
  do_limit-Twin t key cost timeout env =
      and_then-Twin (Throttled.ask t key cost env.clock) (ask t key cost env.clock) _ _
        (ask-Twin t key cost env.clock)
        (λ result w. elim (Bool-cases (eq_f timeout non_blocking || not result.limited)) [
          | inl over ↦ rw over refl
          | inr more ↦ rw more (
              retry-Twin (Throttled.ask t key cost) (ask t key cost) timeout env.start_time
                env.rounds result (ask-Twin t key cost) w)
        ])

  -- The object of the asynchronous package with the fields and the hooks of another one.
  abbrev pub twin : SyncThrottled H → AsyncThrottled H
  twin t = record { fields = t; hooks = embed_all t.hooks }

  limit_with-Twin :
      (t : SyncThrottled H) (args : Outcome (ℕ × Text × Num)) (env : Env)
      → Twin (Throttled.limit_with (twin t) args env) (limit_with t args env)
  unfolding limit_with Throttled.limit_with checked_limit alone
  limit_with-Twin t (raised e) env w = refl
  limit_with-Twin t (ok (n, k, timeout)) env w =
      chain-Twin t.hooks (Throttled.do_limit t k n (to_float timeout) env)
        (do_limit t k n (to_float timeout) env) (context_of t k n)
        (do_limit-Twin t k n (to_float timeout) env) w

  -- For an object with the fields and the hooks of one of the other package, a call of `limit` that
  -- nothing interrupts ends as `limit` of the other package does, and leaves the same state: the same
  -- store, the same answers and sleeps, and the same state of the hooks.
  pub async_limit-refines :
      (t : SyncThrottled H) (key : Option Text) (cost : Num) (timeout : Option Num) (env : Env)
      (w : World × H)
      → alone (Throttled.limit (twin t) key cost timeout env) w
        ≡ result_of (limit t key cost timeout env w)
  unfolding limit Throttled.limit
  async_limit-refines t key cost timeout env w =
      limit_with-Twin t (limit_args t key cost timeout) env w

-- ===== src/Throttled/Grants.antt =====
-- What a call of `limit` takes from the quota, however often it asks the limiter.
use throttled_py.Action.{Outcome, ok, raised, Action, after}
use throttled_py.Common.{
  ℕ, ◌+◌, ◌≡◌, refl, ap, true, not, ◌||◌, List, [], ◌∷◌, Bool-cases, inl, inr, arith,
}
use throttled_py.Common.Float.{Float, Real, minus, le, lt, zero_f, to_float}
use throttled_py.Limiter.Runs.{admitted_cost}
use throttled_py.Quota.{RateLimitResult, Clock}
use throttled_py.Throttled.Logic.{get_wait_time, is_exit_waiting}
use throttled_py.Throttled.{World, Round, wait_loop, wait, end_round, retry}

module _ ⦃F : Float⦄ where
  -- 1 for an answer that admits the request, 0 for any other.
  abbrev pub grant : Outcome RateLimitResult → ℕ
  grant answer = admitted_cost 1 answer

  -- The number of answers that admitted a request.
  abbrev pub granted : List (Outcome RateLimitResult) → ℕ
  granted [] = 0
  granted (a ∷ answers) = grant a + granted answers

  abbrev pub grants : World → ℕ
  grants w = granted w.answers

  -- The result tells what was admitted: one request if it is not limited, and none if it is, or if an
  -- exception is raised.
  abbrev pub Tells : ℕ → Outcome RateLimitResult × World → Type 0
  Tells n done = grants done.1 ≡ grant done.0 + n

  wait_loop_keeps :
      (timeout retry_after start : Real) (readings : List Real) (w : World)
      → let done = wait_loop timeout retry_after start readings w in
        (done.0 ≡ ok tt) × (done.1.answers ≡ w.answers)
  unfolding wait_loop
  wait_loop_keeps timeout retry_after start [] w = (refl, refl)
  wait_loop_keeps timeout retry_after start (now ∷ readings) w =
      let w' = record w { sleeps = get_wait_time retry_after ∷ w.sleeps } in
      elim (Bool-cases (is_exit_waiting now start retry_after timeout)) [
        | inl over ↦ rw over (refl, refl)
        | inr more ↦ rw more (wait_loop_keeps timeout retry_after start readings w')
      ]

  -- To wait asks nothing.
  pub wait_keeps :
      (timeout retry_after : Real) (r : Round) (w : World)
      → let done = wait timeout retry_after r w in (done.0 ≡ ok tt) × (done.1.answers ≡ w.answers)
  unfolding wait
  wait_keeps timeout retry_after r w = elim (Bool-cases (le retry_after zero_f)) [
    | inl soon ↦ rw soon (refl, refl)
    | inr later ↦ rw later (wait_loop_keeps timeout retry_after r.wait_start r.readings w)
  ]

  module _ (ask : Clock → Action World RateLimitResult) where
    -- Each call of `ask` tells what it was granted.
    abbrev pub Honest : Type 0
    Honest = (c : Clock) (w : World) → Tells (grants w) (ask c w)

    -- What follows a limited answer tells what is granted from there.
    abbrev pub TellsAfter : (RateLimitResult → Action World RateLimitResult) → Type 0
    TellsAfter rest =
        (next : RateLimitResult) (w : World) → next.limited ≡ true → Tells (grants w) (rest next w)

    end_round-Tells :
        (timeout start : Real) (r : Round) (rest : RateLimitResult → Action World RateLimitResult)
        (n : ℕ) (done : Outcome RateLimitResult × World)
        → TellsAfter rest
        → Tells n done
        → Tells n (after (end_round timeout start r rest) done)
    unfolding end_round
    end_round-Tells timeout start r rest n (raised e, w) t h = h
    end_round-Tells timeout start r rest n (ok next, w) t h =
        elim (Bool-cases (not next.limited || le timeout (minus r.now start))) [
          | inl over ↦ rw over h
          | inr more ↦
              let limited : next.limited ≡ true = ground arith in
              let told = rw limited at h in
              let same : grants w ≡ n = omega (arith, told) in rw (more, ← same) (t next w limited)
        ]

    pub retry-Tells :
        (timeout start : Real) (rounds : List Round)
        → Honest
        → TellsAfter (retry ask timeout start rounds)
    unfolding retry
    retry-Tells timeout start [] honest result w limited =
        elim (Bool-cases (lt timeout (to_float result.state.retry_after))) [
          | inl over ↦ rw over (rw limited (omega arith))
          | inr more ↦ rw more (rw limited (omega arith))
        ]
    retry-Tells timeout start (r ∷ rounds) honest result w limited =
        let retry_after = to_float result.state.retry_after in
        let waited = wait timeout retry_after r w in
        let kept = wait_keeps timeout retry_after r w in
        let rest = retry ask timeout start rounds in
        let ended =
          end_round-Tells timeout start r rest (grants waited.1) (ask r.clock waited.1)
            (retry-Tells timeout start rounds honest) (honest r.clock waited.1) in
        elim (Bool-cases (lt timeout retry_after)) [
          | inl over ↦ rw over (rw limited (omega arith))
          | inr more ↦ rw (more, kept.0, after) (rw (ap granted kept.1) at ended)
        ]

-- ===== src/Throttled/Ends.antt =====
-- When the retries of a call end.
use throttled_py.Action.{Outcome, ok, raised, Action, after}
use throttled_py.Common.{
  ◌≡◌, ◌⊎◌, inl, inr, refl, Bool, true, not, ◌||◌, List, [], ◌∷◌, Bool-cases, arith,
}
use throttled_py.Common.Float.{Float, Real, minus, le, lt, zero_f, to_float}
use throttled_py.Quota.{RateLimitResult, Clock}
use throttled_py.Throttled.{World, Round, wait_loop, wait, end_round, retry}
use throttled_py.Throttled.Logic.{get_wait_time, is_exit_waiting}

module _ ⦃F : Float⦄ where
  -- At one of the readings the timeout has elapsed since the start.
  abbrev pub Exits : Real → Real → List Real → Type 0
  Exits timeout start [] = ⊥
  Exits timeout start (now ∷ readings) =
      (le timeout (minus now start) ≡ true) ⊎ Exits timeout start readings

  -- Every wait ends, and after one of the rounds the timeout has elapsed since the start.
  abbrev pub Suffices : Real → Real → List Round → Type 0
  Suffices timeout start [] = ⊥
  Suffices timeout start (r ∷ rounds) =
      Exits timeout r.wait_start r.readings
      × ((le timeout (minus r.now start) ≡ true) ⊎ Suffices timeout start rounds)

  -- The run is as finished as it was.
  abbrev pub Same : Bool → World → Type 0
  Same u w = w.unfinished ≡ u

  wait_loop-Same :
      (timeout retry_after start : Real) (readings : List Real) (u : Bool) (w : World)
      → Exits timeout start readings
      → Same u w
      → let done = wait_loop timeout retry_after start readings w in
        (done.0 ≡ ok tt) × Same u done.1
  unfolding wait_loop
  wait_loop-Same timeout retry_after start [] u w x s = elim x [ ]
  wait_loop-Same timeout retry_after start (now ∷ readings) u w (inl x) s =
      let over : is_exit_waiting now start retry_after timeout ≡ true =
        unfold is_exit_waiting in ground arith in
      rw over (refl, s)
  wait_loop-Same timeout retry_after start (now ∷ readings) u w (inr x) s =
      let w' = record w { sleeps = get_wait_time retry_after ∷ w.sleeps } in
      elim (Bool-cases (is_exit_waiting now start retry_after timeout)) [
        | inl over ↦ rw over (refl, s)
        | inr more ↦ rw more (wait_loop-Same timeout retry_after start readings u w' x s)
      ]

  wait-Same :
      (timeout retry_after : Real) (r : Round) (u : Bool) (w : World)
      → Exits timeout r.wait_start r.readings
      → Same u w
      → let done = wait timeout retry_after r w in (done.0 ≡ ok tt) × Same u done.1
  unfolding wait
  wait-Same timeout retry_after r u w x s = elim (Bool-cases (le retry_after zero_f)) [
    | inl soon ↦ rw soon (refl, s)
    | inr later ↦ rw later (wait_loop-Same timeout retry_after r.wait_start r.readings u w x s)
  ]

  module _ (ask : Clock → Action World RateLimitResult) (u : Bool) where
    abbrev pub Finishes : Type 0
    Finishes = (c : Clock) (w : World) → Same u w → Same u (ask c w).1

    end_round-Same :
        (timeout start : Real) (r : Round) (rest : RateLimitResult → Action World RateLimitResult)
        (done : Outcome RateLimitResult × World)
        → (le timeout (minus r.now start) ≡ true)
          ⊎ ((next : RateLimitResult) (w : World) → Same u w → Same u (rest next w).1)
        → Same u done.1
        → Same u (after (end_round timeout start r rest) done).1
    unfolding end_round
    end_round-Same timeout start r rest (raised e, w) h s = s
    end_round-Same timeout start r rest (ok next, w) (inl late) s =
        let over : (not next.limited || le timeout (minus r.now start)) ≡ true = ground arith in
        rw over s
    end_round-Same timeout start r rest (ok next, w) (inr more) s =
        elim (Bool-cases (not next.limited || le timeout (minus r.now start))) [
          | inl over ↦ rw over s
          | inr not_over ↦ rw not_over (more next w s)
        ]

    pub retry-Same :
        (timeout start : Real) (rounds : List Round) (result : RateLimitResult) (w : World)
        → Finishes
        → Suffices timeout start rounds
        → Same u w
        → Same u (retry ask timeout start rounds result w).1
    unfolding retry
    retry-Same timeout start [] result w f enough s = elim enough [ ]
    retry-Same timeout start (r ∷ rounds) result w f (exits, ends) s =
        let retry_after = to_float result.state.retry_after in
        let waited = wait-Same timeout retry_after r u w exits s in
        let w' = (wait timeout retry_after r w).1 in
        let ended =
          end_round-Same timeout start r (retry ask timeout start rounds) (ask r.clock w')
            (elim ends [
              | inl late ↦ inl late
              | inr enough ↦ inr (λ next v k. retry-Same timeout start rounds next v f enough k)
            ])
            (f r.clock w' waited.1) in
        elim (Bool-cases (lt timeout retry_after)) [
          | inl over ↦ rw over s
          | inr more ↦ rw (more, waited.0, after) ended
        ]

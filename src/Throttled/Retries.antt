-- ===== src/Throttled/Retries.antt =====
-- throttled/throttled.py: the retries of class `Throttled`. The readings of the clocks come round by
-- round; the list of rounds is the fuel of the loop.
use throttled_py.Action.{Outcome, ok, raised, Action, pure, ◌>>=◌, ◌>>◌}
use throttled_py.Common.{ℕ, Bool, true, not, ◌||◌, Option, some, List, [], ◌∷◌, if◌then◌else◌}
use throttled_py.Common.Float.{Float, Real, zero_f, minus, le, lt, to_float}
use throttled_py.Common.Text.{Text}
use throttled_py.Memory.{Backend}
use throttled_py.Quota.{RateLimitResult, Clock}
use throttled_py.Registry.{Instance}
use throttled_py.Throttled.Logic.{get_wait_time, is_exit_waiting}

module _ ⦃F : Float⦄ where
  -- What the calls change: the limiter once it is made, the store, and a record, for the statements
  -- only, of what the limiter answered, of the sleeps, and whether the environment's readings ran out.
  pub record World : Type 0 where
    pub limiter : Option Instance
    pub backend : Backend
    pub answers : List (Outcome RateLimitResult)
    pub sleeps : List Real
    pub unfinished : Bool

  -- What one round of the retry loop reads from the clocks: the start of its wait, the time after each
  -- sleep, the clock of its check, and the time after it.
  pub record Round : Type 0 where
    pub wait_start : Real
    pub readings : List Real
    pub clock : Clock
    pub now : Real

  -- What one call reads: the clock of its first check, the start of its retries, and its rounds.
  pub record Env : Type 0 where
    pub clock : Clock
    pub start_time : Real
    pub rounds : List Round

  -- A limiter that was made is kept.
  unfoldable pub keep_limiter : Outcome Instance → Action World Instance
  keep_limiter (ok i) w = (ok i, record w { limiter = some i })
  keep_limiter (raised e) w = (raised e, w)

  -- The check of a limiter on the store, and the record of its answer.
  unfoldable pub check : Instance → Text → ℕ → Clock → Action World RateLimitResult
  check i key cost c w =
      let done = i.cls.limit i.limiter key cost c w.backend in
      (done.0, record w { backend = done.1; answers = done.0 ∷ w.answers })

  -- `_wait` after its first test; the readings are those of `_is_exit_waiting`
  unfoldable pub wait_loop : Real → Real → Real → List Real → Action World (Unit {0})
  unfolding get_wait_time is_exit_waiting
  wait_loop timeout retry_after start_time [] w = (ok tt, record w { unfinished = true })
  wait_loop timeout retry_after start_time (now ∷ readings) w =
      let w' = record w { sleeps = get_wait_time retry_after ∷ w.sleeps } in
      let rest = wait_loop timeout retry_after start_time readings w' in
      if is_exit_waiting now start_time retry_after timeout then (ok tt, w') else rest

  unfoldable pub wait : Real → Real → Round → Action World (Unit {0})
  unfolding wait_loop
  wait timeout retry_after r =
      if le retry_after zero_f
      then pure tt
      else wait_loop timeout retry_after r.wait_start r.readings

  -- The end of a round, with the answer of its check: `rest` is what comes after the round.
  unfoldable pub end_round :
      Real
      → Real
      → Round
      → (RateLimitResult → Action World RateLimitResult)
      → RateLimitResult
      → Action World RateLimitResult
  end_round timeout start_time r rest next w =
      if not next.limited || le timeout (minus r.now start_time) then (ok next, w) else rest next w

  -- The loop of `_do_limit`: the check is made by `ask`, `result` is the answer of the last one.
  unfoldable pub retry :
      (Clock → Action World RateLimitResult)
      → Real
      → Real
      → List Round
      → RateLimitResult
      → Action World RateLimitResult
  unfolding wait to_float end_round
  retry ask timeout start_time [] result w =
      if lt timeout (to_float result.state.retry_after)
      then (ok result, w)
      else (ok result, record w { unfinished = true })
  retry ask timeout start_time (r ∷ rounds) result w =
      let rest = retry ask timeout start_time rounds in
      if lt timeout (to_float result.state.retry_after)
      then (ok result, w)
      else (do
        wait timeout (to_float result.state.retry_after) r
        next ← ask r.clock
        end_round timeout start_time r rest next)
          w

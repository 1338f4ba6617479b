-- ===== src/Limiter/Gcra.antt =====
-- throttled/rate_limiter/gcra.py: the store holds the theoretical arrival time (TAT) of a key.
pub mod Peek
pub mod Refused
use throttled_py.Action.{Action, pure, ◌>>=◌, ◌>>◌}
use throttled_py.Common.{ℕ, Bool, true, false, Option, none, some, if◌then◌else◌}
use throttled_py.Common.Float.{
  Float, Real, of_int, zero_f, plus, minus, times, over, lt, max_f, abs_f, floor, ceil, Num, float,
  to_float, truthy,
}
use throttled_py.Common.Int.{ℤ, pos, ltb_ℤ, ◌+ℤ◌, ◌-ℤ◌, min_ℤ}
use throttled_py.Common.Text.{Text}
use throttled_py.Memory.{Backend, get, set}
use throttled_py.Quota.{RateLimitState, RateLimitResult, Clock, RateLimiter, prepare_key}

module _ ⦃F : Float⦄ where
  -- The tuple that both actions return.
  pub record Answer : Type 0 where
    pub limited : Bool
    pub remaining : ℤ
    pub reset_after : Real
    pub retry_after : Real

  -- `float(value or now)`
  unfoldable pub float_or : Real → Option Num → Real
  unfolding truthy to_float
  float_or now none = now
  float_or now (some value) = if truthy value then to_float value else now

  -- `now - max(now, tat)`, at most zero
  abbrev pub time_from_tat : Real → Real → Real
  time_from_tat now tat = minus now (max_f now tat)

  -- `capacity - cost + math.floor(time_from_tat / emission_interval)`
  unfoldable pub remaining_after : Real → ℕ → ℕ → Real → Real → ℤ
  remaining_after emission_interval capacity cost now tat =
      pos capacity -ℤ pos cost +ℤ floor (over (time_from_tat now tat) emission_interval)

  -- The answer to a request that is limited.
  unfoldable pub denied : Real → ℕ → ℕ → Real → Real → ℤ → Answer
  denied emission_interval capacity cost now last_tat remaining =
      let time_elapsed =
        plus (time_from_tat now last_tat)
          (times (of_int (pos capacity -ℤ pos cost)) emission_interval) in
      record {
        limited = true;
        remaining = min_ℤ (pos capacity) (pos cost +ℤ remaining);
        reset_after = max_f zero_f (minus last_tat now);
        retry_after = abs_f time_elapsed;
      }

  -- `MemoryLimitActionLogic._do`: `t 0` is its `now`, `t 1` and `t 2` are the readings that the store
  -- makes.
  unfoldable pub do_limit : Text → Real → ℕ → ℕ → (ℕ → Real) → Action Backend Answer
  unfolding float_or remaining_after denied
  do_limit key emission_interval capacity cost t = do
    let now = t 0
    raw ← get key (t 1)
    let last_tat = float_or now raw
    let tat = plus (max_f now last_tat) (times (of_int (pos cost)) emission_interval)
    let remaining = remaining_after emission_interval capacity cost now last_tat
    let reset_after = minus tat now
    if ltb_ℤ remaining (pos 0)
        then pure (denied emission_interval capacity cost now last_tat remaining)
        else do
          if lt zero_f reset_after then set key (float tat) (ceil reset_after) (t 2) else pure tt
          pure (record {
            limited = false;
            remaining = remaining;
            reset_after = reset_after;
            retry_after = zero_f;
          })

  -- `MemoryPeekActionLogic._do`
  unfoldable pub do_peek : Text → Real → ℕ → (ℕ → Real) → Action Backend Answer
  unfolding float_or
  do_peek key emission_interval capacity t = do
    let now = t 0
    raw ← get key (t 1)
    let tat = float_or now raw
    let time_elapsed =
        plus (time_from_tat now tat) (times (of_int (pos capacity)) emission_interval)
    let reset_after = max_f zero_f (minus tat now)
    let remaining = pos capacity +ℤ floor (over (time_from_tat now tat) emission_interval)
    pure (
        if ltb_ℤ remaining (pos 1)
        then record {
          limited = true;
          remaining = pos 0;
          reset_after = reset_after;
          retry_after = abs_f time_elapsed;
        }
        else record {
          limited = false;
          remaining = remaining;
          reset_after = reset_after;
          retry_after = zero_f;
        })

  unfoldable pub state_of : ℕ → Answer → RateLimitState
  state_of capacity a = record {
    limit = capacity;
    remaining = a.remaining;
    reset_after = float a.reset_after;
    retry_after = float a.retry_after;
  }

  unfoldable pub limit : RateLimiter → Text → ℕ → Clock → Action Backend RateLimitResult
  unfolding do_limit state_of
  limit r key cost c = do
    a ← do_limit (prepare_key r key) r.quota.emission_interval r.quota.burst cost c.now_mono_f
    pure (record { limited = a.limited; state = state_of r.quota.burst a })

  unfoldable pub peek : RateLimiter → Text → Clock → Action Backend RateLimitState
  unfolding do_peek state_of
  peek r key c = do
    a ← do_peek (prepare_key r key) r.quota.emission_interval r.quota.burst c.now_mono_f
    pure (state_of r.quota.burst a)

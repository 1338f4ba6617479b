-- ===== src/Limiter/SlidingWindow.antt =====
-- throttled/rate_limiter/sliding_window.py
pub mod Denied
use throttled_py.Action.{Action, pure, ◌>>=◌, ◌>>◌}
use throttled_py.Common.{
  ℕ, ◌+◌, ◌*◌, ◌/◌, ◌%◌, Bool, true, false, not, ◌&&◌, Option, none, some, ◌++◌, ◌==◌,
  if◌then◌else◌,
}
use throttled_py.Common.Float.{
  Float, Real, of_int, minus, times, over, floor, Num, int, float, to_int, zero_f,
}
use throttled_py.Common.Int.{ℤ, pos, negsuc, ltb_ℤ, leb_ℤ, ◌+ℤ◌, ◌-ℤ◌, max_ℤ}
use throttled_py.Common.Text.{Text, codes, decimal}
use throttled_py.Limiter.FixedWindow.{int_or_zero}
use throttled_py.Memory.{Backend, num, get, set, assign_client}
use throttled_py.Quota.{RateLimitState, RateLimitResult, Clock, RateLimiter, prepare_key}

module _ ⦃F : Float⦄ where
  -- The count of the current window; a new window is opened with the cost of the request, and
  -- counts as 0.
  unfoldable pub open_window : Text → ℕ → ℕ → Real → Option Num → Action Backend ℤ
  open_window key period cost now none = do
    set key (int (pos cost)) (pos (3 * period)) now
    pure (pos 0)
  open_window key period cost now (some raw) = pure (to_int raw)

  -- `int(previous_raw) if previous_raw is not None else 0`
  unfoldable pub previous_count : Option Num → ℤ
  previous_count none = pos 0
  previous_count (some raw) = to_int raw

  -- `1 - (now_ms % period_ms) / period_ms`
  unfoldable pub previous_proportion : ℕ → ℕ → Real
  previous_proportion period now_ms =
      let period_ms = period * 1000 in
      minus (of_int (pos 1)) (over (of_int (pos (now_ms % period_ms))) (of_int (pos period_ms)))

  unfoldable pub retry_after : ℕ → ℕ → Real → ℤ → Real
  retry_after period cost proportion previous =
      if leb_ℤ (pos cost) previous
      then over (times (times proportion (of_int (pos period))) (of_int (pos cost)))
          (of_int previous)
      else times proportion (of_int (pos period))

  -- `MemoryLimitActionLogic._do`, with its three readings of the monotonic clock.
  unfoldable pub do_limit :
      Text → Text → ℕ → ℕ → ℕ → ℕ → (ℕ → Real) → Action Backend (Bool × ℤ × Real)
  unfolding open_window previous_count previous_proportion retry_after
  do_limit current_key previous_key period limit cost now_ms t = do
    current_raw ← get current_key (t 0)
    current ← open_window current_key period cost (t 1) current_raw
    previous_raw ← get previous_key (t 2)
    let proportion = previous_proportion period now_ms
    let previous = floor (times proportion (of_int (previous_count previous_raw)))
    let used = previous +ℤ current +ℤ pos cost
    if ltb_ℤ (pos limit) used && not (cost == 0)
        then pure (true, used, retry_after period cost proportion previous)
        else assign_client current_key (num (int (current +ℤ pos cost)))
          >> pure (false, used, zero_f)

  -- `f"{key}:period:{idx}"`; the window before the first one has the index -1.
  unfoldable pub window_key : RateLimiter → Text → ℤ → Text
  window_key r key (pos idx) = prepare_key r (key ++ codes ":period:" ++ decimal idx)
  window_key r key (negsuc n) = prepare_key r (key ++ codes ":period:-" ++ decimal (n + 1))

  unfoldable pub current_idx : RateLimiter → Clock → ℤ
  current_idx r c = pos (c.now_sec / r.quota.period_sec)

  unfoldable pub limit : RateLimiter → Text → ℕ → Clock → Action Backend RateLimitResult
  unfolding do_limit window_key current_idx
  limit r key cost c = do
    let idx = current_idx r c
    let quota = r.quota.rate.limit
    answer ←
        do_limit (window_key r key idx) (window_key r key (idx -ℤ pos 1)) r.quota.period_sec quota
          cost c.now_ms c.now_mono_f
    pure (record {
      limited = answer.0;
      state = record {
        limit = quota;
        remaining = max_ℤ (pos 0) (pos quota -ℤ answer.1);
        reset_after = int (pos r.quota.period_sec);
        retry_after = float answer.2;
      };
    })

  unfoldable pub peek : RateLimiter → Text → Clock → Action Backend RateLimitState
  unfolding window_key current_idx previous_proportion int_or_zero
  peek r key c = do
    let idx = current_idx r c
    previous_raw ← get (window_key r key (idx -ℤ pos 1)) (c.now_mono_f 0)
    current_raw ← get (window_key r key idx) (c.now_mono_f 1)
    let proportion = previous_proportion r.quota.period_sec c.now_ms
    let previous = floor (times proportion (of_int (int_or_zero previous_raw)))
    pure (record {
      limit = r.quota.rate.limit;
      remaining = max_ℤ (pos 0) (pos r.quota.rate.limit -ℤ (previous +ℤ int_or_zero current_raw));
      reset_after = int (pos r.quota.period_sec);
      retry_after = int (pos 0);
    })

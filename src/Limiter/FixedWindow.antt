-- ===== src/Limiter/FixedWindow.antt =====
-- throttled/rate_limiter/fixed_window.py
pub mod Window
pub mod Bound
pub mod Recovers
use throttled_py.Action.{Action, pure, ◌>>=◌, ◌>>◌}
use throttled_py.Common.{
  ℕ, ◌+◌, ◌-◌, ◌/◌, ◌%◌, Bool, true, false, not, ◌&&◌, Option, none, some, List, [], ◌∷◌, ◌++◌,
  ◌==◌, if◌then◌else◌,
}
use throttled_py.Common.Float.{Float, Real, Num, int, to_int, truthy}
use throttled_py.Common.Int.{ℤ, pos, ltb_ℤ, ◌+ℤ◌, ◌-ℤ◌, max_ℤ}
use throttled_py.Common.Text.{Text, codes, decimal}
use throttled_py.Memory.{Backend, num, get, set, assign_client}
use throttled_py.Quota.{RateLimitState, RateLimitResult, Clock, RateLimiter, prepare_key}

module _ ⦃F : Float⦄ where
  -- The count of the window with the request added; `raw` is the count that the store holds.
  unfoldable pub count_request : Text → ℕ → ℕ → Real → Option Num → Action Backend ℤ
  count_request key period cost now none = do
    set key (int (pos cost)) (pos period) now
    pure (pos cost)
  count_request key period cost now (some raw) =
      let current = to_int raw +ℤ pos cost in
      (do assign_client key (num (int current)); pure current)

  -- `MemoryLimitActionLogic._do`; `t 0` and `t 1` are its readings of the monotonic clock.
  unfoldable pub do_limit : Text → ℕ → ℕ → ℕ → (ℕ → Real) → Action Backend (Bool × ℤ)
  unfolding count_request
  do_limit key period limit cost t = do
    raw ← get key (t 0)
    current ← count_request key period cost (t 1) raw
    pure (ltb_ℤ (pos limit) current && not (cost == 0), current)

  -- the storage key of `_prepare`
  unfoldable pub period_key : RateLimiter → Text → ℕ → Text
  period_key r key now =
      prepare_key r (key ++ codes ":period:" ++ decimal (now / r.quota.period_sec))

  unfoldable pub result : RateLimiter → ℕ → Bool × ℤ → RateLimitResult
  result r now (limited, current) =
      let period = r.quota.period_sec in
      let reset_after = int (pos period -ℤ pos (now % period)) in
      record {
        limited = limited;
        state = record {
          limit = r.quota.rate.limit;
          remaining = max_ℤ (pos 0) (pos r.quota.rate.limit -ℤ current);
          reset_after = reset_after;
          retry_after = if limited then reset_after else int (pos 0);
        };
      }

  unfoldable pub limit : RateLimiter → Text → ℕ → Clock → Action Backend RateLimitResult
  unfolding do_limit period_key result
  limit r key cost c = do
    answer ←
        do_limit (period_key r key c.now_sec) r.quota.period_sec r.quota.rate.limit cost
          c.now_mono_f
    pure (result r c.now_sec answer)

  -- `int(value or 0)`
  unfoldable pub int_or_zero : Option Num → ℤ
  unfolding truthy to_int
  int_or_zero none = pos 0
  int_or_zero (some value) = if truthy value then to_int value else pos 0

  unfoldable pub peek : RateLimiter → Text → Clock → Action Backend RateLimitState
  unfolding period_key int_or_zero
  peek r key c = do
    raw ← get (period_key r key c.now_sec) (c.now_mono_f 0)
    pure (record {
      limit = r.quota.rate.limit;
      remaining = max_ℤ (pos 0) (pos r.quota.rate.limit -ℤ int_or_zero raw);
      reset_after = int (pos r.quota.period_sec -ℤ pos (c.now_sec % r.quota.period_sec));
      retry_after = int (pos 0);
    })

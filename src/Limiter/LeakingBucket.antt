-- ===== src/Limiter/LeakingBucket.antt =====
-- throttled/rate_limiter/leaking_bucket.py
pub mod Peek
use throttled_py.Action.{Action, pure, ◌>>=◌, ◌>>◌}
use throttled_py.Common.{ℕ, Bool, true, false, none, if◌then◌else◌}
use throttled_py.Common.Float.{Float, Real, of_int, times, over, floor, ceil, Num, int}
use throttled_py.Common.Int.{ℤ, pos, ltb_ℤ, leb_ℤ, ◌+ℤ◌, ◌-ℤ◌, max_ℤ}
use throttled_py.Common.Text.{Text}
use throttled_py.Dict.{Dict}
use throttled_py.Limiter.TokenBucket.{tokens_field, last_refreshed_field, get_int, bucket_of}
use throttled_py.Memory.{Backend, hgetall, hset, expire}
use throttled_py.Quota.{RateLimitState, RateLimitResult, Clock, RateLimiter, prepare_key}

module _ ⦃F : Float⦄ where
  -- The water level after a time: what the last request left, less what leaked since.
  unfoldable pub leaked : Real → ℤ → Dict Num → ℤ
  unfolding get_int
  leaked rate time_elapsed bucket =
      max_ℤ (pos 0)
        (get_int tokens_field (pos 0) bucket -ℤ floor (times (of_int time_elapsed) rate))

  -- `now - last_refreshed`
  unfoldable pub elapsed : ℕ → Dict Num → ℤ
  unfolding get_int
  elapsed now bucket = pos now -ℤ get_int last_refreshed_field (pos now) bucket

  -- `MemoryLimitActionLogic._do`, with its two readings of the monotonic clock
  unfoldable pub do_limit : Text → Real → ℕ → ℕ → ℕ → (ℕ → Real) → Action Backend (Bool × ℤ)
  unfolding leaked elapsed
  do_limit key rate capacity cost now t = do
    bucket ← hgetall key (t 0)
    let tokens = leaked rate (elapsed now bucket) bucket
    if ltb_ℤ (pos capacity) (tokens +ℤ pos cost) then pure (true, pos capacity -ℤ tokens) else do
      let fill_time = over (of_int (pos capacity)) rate
      expire key (ceil (times (of_int (pos 2)) fill_time)) (t 1)
      hset key none none (bucket_of (tokens +ℤ pos cost) now)
      pure (false, pos capacity -ℤ (tokens +ℤ pos cost))

  -- Seconds until the bucket reaches the upper limit.
  unfoldable pub refill_sec : Real → ℤ → ℤ → ℤ
  refill_sec fill_rate upper remaining =
      if leb_ℤ upper remaining then pos 0 else ceil (over (of_int (upper -ℤ remaining)) fill_rate)

  unfoldable pub to_result : RateLimiter → ℕ → Bool × ℤ → RateLimitResult
  unfolding refill_sec
  to_result r cost (limited, tokens) =
      let capacity = r.quota.burst in
      record {
        limited = limited;
        state = record {
          limit = capacity;
          remaining = tokens;
          reset_after = int (refill_sec r.quota.fill_rate (pos capacity) tokens);
          retry_after =
              int (if limited then refill_sec r.quota.fill_rate (pos cost) tokens else pos 0);
        };
      }

  unfoldable pub limit : RateLimiter → Text → ℕ → Clock → Action Backend RateLimitResult
  unfolding do_limit to_result
  limit r key cost c = do
    answer ←
        do_limit (prepare_key r key) r.quota.fill_rate r.quota.burst cost c.now_sec c.now_mono_f
    pure (to_result r cost answer)

  -- Unlike `do_limit`, a `peek` takes no time before the last request into account.
  unfoldable pub peek : RateLimiter → Text → Clock → Action Backend RateLimitState
  unfolding leaked elapsed
  peek r key c = do
    bucket ← hgetall (prepare_key r key) (c.now_mono_f 0)
    let capacity = r.quota.burst
    let tokens = leaked r.quota.fill_rate (max_ℤ (pos 0) (elapsed c.now_sec bucket)) bucket
    pure (record {
      limit = capacity;
      remaining = pos capacity -ℤ tokens;
      reset_after = int (ceil (over (of_int tokens) r.quota.fill_rate));
      retry_after = int (pos 0);
    })

-- ===== src/Limiter/TokenBucket.antt =====
-- throttled/rate_limiter/token_bucket.py
pub mod Bucket
pub mod Missing
pub mod Answers
pub mod Level
pub mod Clocks
pub mod Steps
pub mod Bound
pub mod Peek
use throttled_py.Action.{Action, pure, ◌>>=◌, ◌>>◌}
use throttled_py.Common.{ℕ, Bool, true, false, Option, none, some, [], ◌∷◌, if◌then◌else◌}
use throttled_py.Common.Float.{Float, Real, of_int, times, over, floor, ceil, Num, int, to_int}
use throttled_py.Common.Int.{ℤ, pos, ltb_ℤ, leb_ℤ, ◌+ℤ◌, ◌-ℤ◌, max_ℤ, min_ℤ}
use throttled_py.Common.Text.{Text, codes}
use throttled_py.Dict.{Dict, lookup}
use throttled_py.Memory.{Backend, hgetall, hset, expire}
use throttled_py.Quota.{RateLimitState, RateLimitResult, Clock, RateLimiter, prepare_key}

abbrev pub tokens_field : Text
tokens_field = codes "tokens"

abbrev pub last_refreshed_field : Text
last_refreshed_field = codes "last_refreshed"

module _ ⦃F : Float⦄ where
  -- `int(bucket.get(field, default))`
  unfoldable pub get_int : Text → ℤ → Dict Num → ℤ
  unfolding to_int
  get_int field default bucket = elim (lookup field bucket) [ none ↦ default | some n ↦ to_int n ]

  -- the mapping that a bucket is stored as
  abbrev pub bucket_of : ℤ → ℕ → Dict Num
  bucket_of tokens now = (tokens_field, int tokens) ∷ (last_refreshed_field, int (pos now)) ∷ []

  -- The tokens in the bucket: those of the last request, and those that were filled in since.
  unfoldable pub refilled : Real → ℕ → ℕ → Dict Num → ℤ
  unfolding get_int
  refilled rate capacity now bucket =
      let last_tokens = get_int tokens_field (pos capacity) bucket in
      let last_refreshed = get_int last_refreshed_field (pos now) bucket in
      let time_elapsed = max_ℤ (pos 0) (pos now -ℤ last_refreshed) in
      min_ℤ (pos capacity) (last_tokens +ℤ floor (times (of_int time_elapsed) rate))

  -- `MemoryLimitActionLogic._do`, with its two readings of the monotonic clock
  unfoldable pub do_limit : Text → Real → ℕ → ℕ → ℕ → (ℕ → Real) → Action Backend (Bool × ℤ)
  unfolding refilled
  do_limit key rate capacity cost now t = do
    bucket ← hgetall key (t 0)
    let tokens = refilled rate capacity now bucket
    if ltb_ℤ tokens (pos cost) then pure (true, tokens) else do
      let left = tokens -ℤ pos cost
      hset key none none (bucket_of left now)
      let fill_time = over (of_int (pos capacity)) rate
      expire key (ceil (times (of_int (pos 2)) fill_time)) (t 1)
      pure (false, left)

  -- Seconds until the bucket reaches the upper limit.
  unfoldable pub refill_sec : Real → ℤ → ℤ → ℤ
  refill_sec fill_rate upper remaining =
      if leb_ℤ upper remaining then pos 0 else ceil (over (of_int (upper -ℤ remaining)) fill_rate)

  unfoldable pub to_result : RateLimiter → ℕ → Bool × ℤ → RateLimitResult
  unfolding refill_sec
  to_result r cost (limited, tokens) =
      let capacity = r.quota.burst in
      record {
        limited = limited;
        state = record {
          limit = capacity;
          remaining = tokens;
          reset_after = int (refill_sec r.quota.fill_rate (pos capacity) tokens);
          retry_after =
              int (if limited then refill_sec r.quota.fill_rate (pos cost) tokens else pos 0);
        };
      }

  unfoldable pub limit : RateLimiter → Text → ℕ → Clock → Action Backend RateLimitResult
  unfolding do_limit to_result
  limit r key cost c = do
    answer ←
        do_limit (prepare_key r key) r.quota.fill_rate r.quota.burst cost c.now_sec c.now_mono_f
    pure (to_result r cost answer)

  unfoldable pub peek : RateLimiter → Text → Clock → Action Backend RateLimitState
  unfolding refilled
  peek r key c = do
    bucket ← hgetall (prepare_key r key) (c.now_mono_f 0)
    let capacity = r.quota.burst
    let tokens = refilled r.quota.fill_rate capacity c.now_sec bucket
    pure (record {
      limit = capacity;
      remaining = tokens;
      reset_after = int (ceil (over (of_int (pos capacity -ℤ tokens)) r.quota.fill_rate));
      retry_after = int (pos 0);
    })

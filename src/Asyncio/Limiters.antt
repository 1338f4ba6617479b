-- ===== src/Asyncio/Limiters.antt =====
-- throttled/asyncio/rate_limiter: `_limit` and `_peek` of the five limiters, on the memory store. An
-- action of the store runs behind its lock; the configuration and the results are those of the
-- synchronous twins.
pub mod Twins
use throttled_py.Action.{Outcome, ok, raised, Action}
use throttled_py.Asyncio.Coro.{Coro, done, does, awaits, returned, act, suspend, ◌>>=◌}
use throttled_py.Asyncio.Store.{locked}
use throttled_py.Common.{ℕ, ◌/◌, ◌%◌, Bool, Option}
use throttled_py.Common.Float.{Float, of_int, floor, ceil, over, times, int, float}
use throttled_py.Common.Int.{pos, ◌+ℤ◌, ◌-ℤ◌, max_ℤ}
use throttled_py.Common.Text.{Text}
use throttled_py.Limiter.FixedWindow
use throttled_py.Limiter.FixedWindow.{period_key, int_or_zero}
use throttled_py.Limiter.Gcra
use throttled_py.Limiter.Gcra.{do_peek, state_of}
use throttled_py.Limiter.LeakingBucket
use throttled_py.Limiter.LeakingBucket.{leaked, elapsed}
use throttled_py.Limiter.SlidingWindow
use throttled_py.Limiter.SlidingWindow.{window_key, current_idx, previous_proportion}
use throttled_py.Limiter.TokenBucket
use throttled_py.Limiter.TokenBucket.{refilled}
use throttled_py.Memory.{Backend, get, hgetall}
use throttled_py.Quota.{RateLimiter, RateLimitResult, RateLimitState, Clock, prepare_key}
use throttled_py.Registry.Builtin.{
  RateLimiterType, fixed_window, sliding_window, leaking_bucket, token_bucket, gcra,
}

abbrev returns : {S A : Type 0} → A → Coro S A
returns a = done (returned a)

module _ ⦃F : Float⦄ where
  unfoldable pub limit_fixed : RateLimiter → Text → ℕ → Clock → Coro Backend RateLimitResult
  unfolding FixedWindow.do_limit period_key FixedWindow.result
  limit_fixed r key cost c =
      locked (
        FixedWindow.do_limit (period_key r key c.now_sec) r.quota.period_sec r.quota.rate.limit cost
          c.now_mono_f)
      >>= λ answer. returns (FixedWindow.result r c.now_sec answer)

  unfoldable pub peek_fixed : RateLimiter → Text → Clock → Coro Backend RateLimitState
  unfolding period_key int_or_zero
  peek_fixed r key c = locked (get (period_key r key c.now_sec) (c.now_mono_f 0)) >>= λ raw.
      returns (record {
        limit = r.quota.rate.limit;
        remaining = max_ℤ (pos 0) (pos r.quota.rate.limit -ℤ int_or_zero raw);
        reset_after = int (pos r.quota.period_sec -ℤ pos (c.now_sec % r.quota.period_sec));
        retry_after = int (pos 0);
      })

  unfoldable pub limit_sliding : RateLimiter → Text → ℕ → Clock → Coro Backend RateLimitResult
  unfolding SlidingWindow.do_limit window_key current_idx
  limit_sliding r key cost c =
      let idx = current_idx r c in
      let quota = r.quota.rate.limit in
      locked (
        SlidingWindow.do_limit (window_key r key idx) (window_key r key (idx -ℤ pos 1))
          r.quota.period_sec quota cost c.now_ms c.now_mono_f)
      >>= λ answer. returns (record {
        limited = answer.0;
        state = record {
          limit = quota;
          remaining = max_ℤ (pos 0) (pos quota -ℤ answer.1);
          reset_after = int (pos r.quota.period_sec);
          retry_after = float answer.2;
        };
      })

  -- Two calls of the store: other tasks may run between them.
  unfoldable pub peek_sliding : RateLimiter → Text → Clock → Coro Backend RateLimitState
  unfolding window_key current_idx previous_proportion int_or_zero
  peek_sliding r key c =
      let idx = current_idx r c in
      let limit = r.quota.rate.limit in
      locked (get (window_key r key (idx -ℤ pos 1)) (c.now_mono_f 0)) >>= λ previous_raw.
      let proportion = previous_proportion r.quota.period_sec c.now_ms in
      let previous = floor (times proportion (of_int (int_or_zero previous_raw))) in
      locked (get (window_key r key idx) (c.now_mono_f 1)) >>= λ current_raw. returns (record {
        limit = limit;
        remaining = max_ℤ (pos 0) (pos limit -ℤ (previous +ℤ int_or_zero current_raw));
        reset_after = int (pos r.quota.period_sec);
        retry_after = int (pos 0);
      })

  unfoldable pub limit_leaking : RateLimiter → Text → ℕ → Clock → Coro Backend RateLimitResult
  unfolding LeakingBucket.do_limit LeakingBucket.to_result
  limit_leaking r key cost c =
      locked (
        LeakingBucket.do_limit (prepare_key r key) r.quota.fill_rate r.quota.burst cost c.now_sec
          c.now_mono_f)
      >>= λ answer. returns (LeakingBucket.to_result r cost answer)

  unfoldable pub peek_leaking : RateLimiter → Text → Clock → Coro Backend RateLimitState
  unfolding leaked elapsed
  peek_leaking r key c = locked (hgetall (prepare_key r key) (c.now_mono_f 0)) >>= λ bucket.
      let capacity = r.quota.burst in
      let time_elapsed = max_ℤ (pos 0) (elapsed c.now_sec bucket) in
      let tokens = leaked r.quota.fill_rate time_elapsed bucket in
      returns (record {
        limit = capacity;
        remaining = pos capacity -ℤ tokens;
        reset_after = int (ceil (over (of_int tokens) r.quota.fill_rate));
        retry_after = int (pos 0);
      })

  unfoldable pub limit_token : RateLimiter → Text → ℕ → Clock → Coro Backend RateLimitResult
  unfolding TokenBucket.do_limit TokenBucket.to_result
  limit_token r key cost c =
      locked (
        TokenBucket.do_limit (prepare_key r key) r.quota.fill_rate r.quota.burst cost c.now_sec
          c.now_mono_f)
      >>= λ answer. returns (TokenBucket.to_result r cost answer)

  unfoldable pub peek_token : RateLimiter → Text → Clock → Coro Backend RateLimitState
  unfolding refilled
  peek_token r key c = locked (hgetall (prepare_key r key) (c.now_mono_f 0)) >>= λ bucket.
      let capacity = r.quota.burst in
      let tokens = refilled r.quota.fill_rate capacity c.now_sec bucket in
      returns (record {
        limit = capacity;
        remaining = tokens;
        reset_after = int (ceil (over (of_int (pos capacity -ℤ tokens)) r.quota.fill_rate));
        retry_after = int (pos 0);
      })

  unfoldable pub limit_gcra : RateLimiter → Text → ℕ → Clock → Coro Backend RateLimitResult
  unfolding Gcra.do_limit state_of
  limit_gcra r key cost c =
      locked (
        Gcra.do_limit (prepare_key r key) r.quota.emission_interval r.quota.burst cost c.now_mono_f)
      >>= λ a. returns (record { limited = a.limited; state = state_of r.quota.burst a })

  unfoldable pub peek_gcra : RateLimiter → Text → Clock → Coro Backend RateLimitState
  unfolding do_peek state_of
  peek_gcra r key c =
      locked (do_peek (prepare_key r key) r.quota.emission_interval r.quota.burst c.now_mono_f)
      >>= λ a. returns (state_of r.quota.burst a)

  -- the methods of the classes that are registered
  unfoldable pub async_limit_of :
      RateLimiterType → RateLimiter → Text → ℕ → Clock → Coro Backend RateLimitResult
  async_limit_of fixed_window = limit_fixed
  async_limit_of sliding_window = limit_sliding
  async_limit_of leaking_bucket = limit_leaking
  async_limit_of token_bucket = limit_token
  async_limit_of gcra = limit_gcra

  unfoldable pub async_peek_of :
      RateLimiterType → RateLimiter → Text → Clock → Coro Backend RateLimitState
  async_peek_of fixed_window = peek_fixed
  async_peek_of sliding_window = peek_sliding
  async_peek_of leaking_bucket = peek_leaking
  async_peek_of token_bucket = peek_token
  async_peek_of gcra = peek_gcra

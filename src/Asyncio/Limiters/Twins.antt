-- ===== src/Asyncio/Limiters/Twins.antt =====
-- Undisturbed, the limiters of the two packages do the same.
use throttled_py.Action.{Action, pure, after}
use throttled_py.Asyncio.Coro.{done, returned, ◌>>=◌, alone}
use throttled_py.Asyncio.Coro.Twin.{Twin, result_of, and_then-Twin}
use throttled_py.Asyncio.Limiters.{
  limit_fixed, limit_sliding, limit_leaking, limit_token, limit_gcra, peek_fixed, peek_sliding,
  peek_leaking, peek_token, peek_gcra, async_limit_of, async_peek_of,
}
use throttled_py.Asyncio.Store.{locked}
use throttled_py.Common.{ℕ, ◌≡◌, refl}
use throttled_py.Common.Float.{Float}
use throttled_py.Common.Int.{pos, ◌-ℤ◌}
use throttled_py.Common.Text.{Text}
use throttled_py.Limiter.FixedWindow
use throttled_py.Limiter.FixedWindow.{period_key}
use throttled_py.Limiter.Gcra
use throttled_py.Limiter.Gcra.{do_peek}
use throttled_py.Limiter.LeakingBucket
use throttled_py.Limiter.SlidingWindow
use throttled_py.Limiter.SlidingWindow.{window_key, current_idx}
use throttled_py.Limiter.TokenBucket
use throttled_py.Memory.{Backend, get, hgetall}
use throttled_py.Quota.{RateLimiter, Clock, prepare_key}
use throttled_py.Registry.Builtin.{
  RateLimiterType, fixed_window, sliding_window, leaking_bucket, token_bucket, gcra, limit_of,
  peek_of,
}

locked-Twin : {S A : Type 0} (m : Action S A) → Twin (locked m) m
unfolding alone
locked-Twin m s = refl

-- One call of the store, and a result that is made from its answer.
call-Twin :
    {S A B : Type 0} (m : Action S A) (f : A → B)
    → Twin (locked m >>= λ a. done (returned (f a))) (λ s. after (λ a. pure (f a)) (m s))
unfolding alone
call-Twin m f = and_then-Twin (locked m) m _ _ (locked-Twin m) (λ a s. refl)

module _ ⦃F : Float⦄ where
  limit-Twin :
      (type : RateLimiterType) (r : RateLimiter) (key : Text) (cost : ℕ) (c : Clock)
      → Twin (async_limit_of type r key cost c) (limit_of type r key cost c)
  unfolding async_limit_of limit_of limit_fixed limit_sliding limit_leaking limit_token limit_gcra
      FixedWindow.limit SlidingWindow.limit LeakingBucket.limit TokenBucket.limit Gcra.limit
  limit-Twin fixed_window r key cost c =
      call-Twin
        (FixedWindow.do_limit (period_key r key c.now_sec) r.quota.period_sec r.quota.rate.limit
          cost c.now_mono_f)
        _
  limit-Twin sliding_window r key cost c =
      let idx = current_idx r c in
      call-Twin
        (SlidingWindow.do_limit (window_key r key idx) (window_key r key (idx -ℤ pos 1))
          r.quota.period_sec r.quota.rate.limit cost c.now_ms c.now_mono_f)
        _
  limit-Twin leaking_bucket r key cost c =
      call-Twin
        (LeakingBucket.do_limit (prepare_key r key) r.quota.fill_rate r.quota.burst cost c.now_sec
          c.now_mono_f)
        _
  limit-Twin token_bucket r key cost c =
      call-Twin
        (TokenBucket.do_limit (prepare_key r key) r.quota.fill_rate r.quota.burst cost c.now_sec
          c.now_mono_f)
        _
  limit-Twin gcra r key cost c =
      call-Twin
        (Gcra.do_limit (prepare_key r key) r.quota.emission_interval r.quota.burst cost
          c.now_mono_f)
        _

  peek-Twin :
      (type : RateLimiterType) (r : RateLimiter) (key : Text) (c : Clock)
      → Twin (async_peek_of type r key c) (peek_of type r key c)
  unfolding async_peek_of peek_of peek_fixed peek_sliding peek_leaking peek_token peek_gcra
      FixedWindow.peek SlidingWindow.peek LeakingBucket.peek TokenBucket.peek Gcra.peek
  peek-Twin fixed_window r key c = call-Twin (get (period_key r key c.now_sec) (c.now_mono_f 0)) _
  peek-Twin sliding_window r key c =
      let idx = current_idx r c in
      and_then-Twin (locked (get (window_key r key (idx -ℤ pos 1)) (c.now_mono_f 0)))
        (get (window_key r key (idx -ℤ pos 1)) (c.now_mono_f 0)) _ _
        (locked-Twin (get (window_key r key (idx -ℤ pos 1)) (c.now_mono_f 0)))
        (λ previous_raw. call-Twin (get (window_key r key idx) (c.now_mono_f 1)) _)
  peek-Twin leaking_bucket r key c = call-Twin (hgetall (prepare_key r key) (c.now_mono_f 0)) _
  peek-Twin token_bucket r key c = call-Twin (hgetall (prepare_key r key) (c.now_mono_f 0)) _
  peek-Twin gcra r key c =
      call-Twin (do_peek (prepare_key r key) r.quota.emission_interval r.quota.burst c.now_mono_f) _

  -- For each of the five types, on every store, a check and a peek of the asynchronous limiter that
  -- nothing interrupts end as those of the synchronous limiter do, and leave the same store.
  pub async_limiters-refine :
      (type : RateLimiterType) (r : RateLimiter) (key : Text) (cost : ℕ) (c : Clock) (b : Backend)
      → (alone (async_limit_of type r key cost c) b ≡ result_of (limit_of type r key cost c b))
        × (alone (async_peek_of type r key c) b ≡ result_of (peek_of type r key c b))
  async_limiters-refine type r key cost c b =
      (limit-Twin type r key cost c b, peek-Twin type r key c b)

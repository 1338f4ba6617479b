-- ===== src/Limiter/FixedWindow/Recovers.antt =====
-- What a refused request of the fixed-window limiter is told to wait for.
use native.Mathlib.Nat.{mod-add-div', div-eq_of_eq-mul_left}
use throttled_py.Action.{Outcome, ok, raised, ok-injective, pure, after}
use throttled_py.Common.{
  ℕ, Bool, ◌+◌, ◌/◌, ◌%◌, ◌<◌, ◌≤◌, ◌≡◌, refl, ap, sym, ◌∙◌, true, false, none, ◌++◌, arith,
}
use throttled_py.Common.Float.{Float, Num, int}
use throttled_py.Common.Int.{ℤ, pos, pos_part, neg_part, ◌-ℤ◌, int_laws}
use throttled_py.Common.Text.{Text, codes, decimal}
use throttled_py.Limiter.FixedWindow.{period_key, do_limit, result, limit}
use throttled_py.Limiter.FixedWindow.Window.{exceeds, do_limit_first}
use throttled_py.Memory.{Backend, get}
use throttled_py.Memory.Effects.{IsValid}
use throttled_py.Quota.{RateLimiter, RateLimitResult, Clock, prepare_key}

-- The end of a period is the start of the next one.
next_period : (n p n' : ℕ) → 0 < p → n' + n % p ≡ n + p → n' / p ≡ n / p + 1
next_period n p n' h e = div-eq_of_eq-mul_left h (omega (arith, mod-add-div' n p, e))

same_difference : (a b c d : ℕ) → pos a -ℤ pos b ≡ pos c -ℤ pos d → a + d ≡ b + c
same_difference a b c d h = omega (int_laws, ap pos_part h, ap neg_part h)

module _ ⦃F : Float⦄ where
  int-injective : {a b : ℤ} → ◌≡◌ {A = Num} (int a) (int b) → a ≡ b
  int-injective h = cc

  -- What a limited result says of the wait.
  limited_wait :
      (r : RateLimiter) (now : ℕ) (done : Outcome (Bool × ℤ) × Backend) {res : RateLimitResult}
      → (after (λ a. pure (result r now a)) done).0 ≡ ok res
      → res.limited ≡ true
      → let period = r.quota.period_sec in
        res.state.retry_after ≡ int (pos period -ℤ pos (now % period))
  unfolding result
  limited_wait r now (ok (true, current), b) h l =
      ap (λ x. x.state.retry_after) (sym (ok-injective h))
  limited_wait r now (ok (false, current), b) h l =
      absurd (cc (ap (λ x. x.limited) (ok-injective h), l))
  limited_wait r now (raised e, b) h l = absurd (cc h)

  -- A request that the fixed-window limiter refuses is admitted when it is made again, at the latest
  -- with a cost up to the limit, after the time that the refusal tells to wait, whatever else the store
  -- holds then, as long as the next window of the key is still unused.
  pub refused-recovers :
      (r : RateLimiter) (key : Text) (cost cost' : ℕ) (c c' : Clock) (b b' : Backend)
      {res : RateLimitResult}
      → 0 < r.quota.period_sec
      → (limit r key cost c b).0 ≡ ok res
      → res.limited ≡ true
      → res.state.retry_after ≡ int (pos c'.now_sec -ℤ pos c.now_sec)
      → cost' ≤ r.quota.rate.limit
      → IsValid b'
      → (get
          (prepare_key r (key ++ codes ":period:" ++ decimal (c.now_sec / r.quota.period_sec + 1)))
          (c'.now_mono_f 0)
          b').0
        ≡ ok none
      → (limit r key cost' c' b').0 ≡ ok (result r c'.now_sec (false, pos cost'))
  unfolding limit period_key
  refused-recovers r key cost cost' c c' b b' long refused limited wait fits valid unused =
      let period = r.quota.period_sec in
      let told =
        limited_wait r c.now_sec
          (do_limit (period_key r key c.now_sec) period r.quota.rate.limit cost c.now_mono_f b)
          refused limited in
      let later =
        same_difference c'.now_sec c.now_sec period (c.now_sec % period)
          (int-injective (sym wait ∙ told)) in
      let next = next_period c.now_sec period c'.now_sec long later in
      let first =
        do_limit_first (period_key r key c'.now_sec) period r.quota.rate.limit cost' c'.now_mono_f
          b' (rw next unused) valid in
      let admits : exceeds r.quota.rate.limit cost' (pos cost') ≡ false = ground arith in
      rw (first.0, after) (rw admits refl)

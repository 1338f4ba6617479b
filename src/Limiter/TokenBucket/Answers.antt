-- ===== src/Limiter/TokenBucket/Answers.antt =====
-- The answers of the token-bucket limiter, by what a request finds.
use throttled_py.Action.{ok, after}
use throttled_py.Common.{ℕ, ◌≡◌, refl, true, false, some, [], arith, if◌then◌else◌}
use throttled_py.Common.Float.{Float, Real, of_int, plus, zero_f, times, le, floor-nonneg}
use throttled_py.Common.Int.{
  ℤ, pos, ltb_ℤ, ◌+ℤ◌, ◌-ℤ◌, ◌≤ℤ◌, max_ℤ, int_laws, min_ℤ_bounds, min_ℤ_nonneg, max_ℤ_bounds,
}
use throttled_py.Common.Text.{Text}
use throttled_py.Dict.{lookup}
use throttled_py.Limiter.TokenBucket.{bucket_of, refilled, to_result, limit}
use throttled_py.Limiter.TokenBucket.Bucket.{
  IsBucket, filled_in, fill_timeout, refilled_bucket, do_limit-IsBucket,
}
use throttled_py.Limiter.TokenBucket.Missing.{
  IsMissing, IsAbsent, missing_denied, missing_granted, live_expiry,
}
use throttled_py.Memory.{Backend, has_expired}
use throttled_py.Memory.Effects.{IsValid}
use throttled_py.Quota.{Clock, RateLimiter, prepare_key}

module _ ⦃F : Float⦄ where
  -- The answer to a request that finds a live bucket, and the bucket that it leaves.
  limit-IsBucket :
      (r : RateLimiter) (key : Text) (cost : ℕ) (c : Clock) (tokens : ℤ) (last : ℕ) (b : Backend)
      → IsBucket (prepare_key r key) tokens last b
      → has_expired (prepare_key r key) (c.now_mono_f 0) b ≡ false
      → let found = refilled r.quota.fill_rate r.quota.burst c.now_sec (bucket_of tokens last) in
        let limited = ltb_ℤ found (pos cost) in
        let left = found -ℤ pos cost in
        let done = limit r key cost c b in
        (done.0 ≡ ok (to_result r cost (if limited then (true, found) else (false, left))))
        × IsBucket
            (prepare_key r key)
            (if limited then tokens else left)
            (if limited then last else c.now_sec)
            done.1
  unfolding limit
  limit-IsBucket r key cost c tokens last b h live =
      let step =
        do_limit-IsBucket (prepare_key r key) r.quota.fill_rate r.quota.burst cost c.now_sec
          c.now_mono_f tokens last b h live in
      rw (step.0, after) (refl, step.1)

  -- the tokens that a request finds
  abbrev pub found_by : RateLimiter → ℕ → ℤ → ℕ → ℤ
  found_by r now tokens last = refilled r.quota.fill_rate r.quota.burst now (bucket_of tokens last)

  pub limit_denied :
      (r : RateLimiter) (key : Text) (cost : ℕ) (c : Clock) (tokens : ℤ) (last : ℕ) (b : Backend)
      → IsBucket (prepare_key r key) tokens last b
      → has_expired (prepare_key r key) (c.now_mono_f 0) b ≡ false
      → ltb_ℤ (found_by r c.now_sec tokens last) (pos cost) ≡ true
      → let done = limit r key cost c b in
        (done.0 ≡ ok (to_result r cost (true, found_by r c.now_sec tokens last)))
        × IsBucket (prepare_key r key) tokens last done.1
  limit_denied r key cost c tokens last b h live short =
      rw short at (limit-IsBucket r key cost c tokens last b h live)

  pub limit_granted :
      (r : RateLimiter) (key : Text) (cost : ℕ) (c : Clock) (tokens : ℤ) (last : ℕ) (b : Backend)
      → IsBucket (prepare_key r key) tokens last b
      → has_expired (prepare_key r key) (c.now_mono_f 0) b ≡ false
      → ltb_ℤ (found_by r c.now_sec tokens last) (pos cost) ≡ false
      → let left = found_by r c.now_sec tokens last -ℤ pos cost in
        let done = limit r key cost c b in
        (done.0 ≡ ok (to_result r cost (false, left)))
        × IsBucket (prepare_key r key) left c.now_sec done.1
  limit_granted r key cost c tokens last b h live enough =
      rw enough at (limit-IsBucket r key cost c tokens last b h live)

  pub found-le :
      (r : RateLimiter) (now last : ℕ) (tokens : ℤ)
      → (found_by r now tokens last ≤ℤ tokens +ℤ filled_in r.quota.fill_rate last now)
        × (found_by r now tokens last ≤ℤ pos r.quota.burst)
  found-le r now last tokens =
      let gain = filled_in r.quota.fill_rate last now in
      let bounds = min_ℤ_bounds (pos r.quota.burst) (tokens +ℤ gain) in
      rw refilled_bucket (bounds.1, bounds.0)

  pub no_debt : (found : ℤ) (cost : ℕ) → ltb_ℤ found (pos cost) ≡ false → pos 0 ≤ℤ found -ℤ pos cost
  unfolding ◌-ℤ◌
  no_debt found cost h = ground arith

  -- the expiry that an admitted request sets
  abbrev pub expiry : RateLimiter → Clock → Real
  expiry r c = plus (c.now_mono_f 1) (of_int (fill_timeout r.quota.fill_rate r.quota.burst))

  pub limit_expiry :
      (r : RateLimiter) (key : Text) (cost : ℕ) (c : Clock) (tokens : ℤ) (last : ℕ) (b : Backend)
      → IsBucket (prepare_key r key) tokens last b
      → has_expired (prepare_key r key) (c.now_mono_f 0) b ≡ false
      → lookup (prepare_key r key) (limit r key cost c b).1.expire_info ≡ (
          if ltb_ℤ (found_by r c.now_sec tokens last) (pos cost)
          then lookup (prepare_key r key) b.expire_info
          else some (expiry r c))
  unfolding limit
  limit_expiry r key cost c tokens last b h live =
      let step =
        do_limit-IsBucket (prepare_key r key) r.quota.fill_rate r.quota.burst cost c.now_sec
          c.now_mono_f tokens last b h live in
      rw (step.0, after)
        (live_expiry (prepare_key r key) r.quota.fill_rate r.quota.burst cost c.now_sec c.now_mono_f
          tokens last b h live)

  -- the tokens that a request finds where no bucket is
  abbrev pub found_new : RateLimiter → ℕ → ℤ
  found_new r now = refilled r.quota.fill_rate r.quota.burst now []

  pub limit_missing_denied :
      (r : RateLimiter) (key : Text) (cost : ℕ) (c : Clock) (b : Backend)
      → IsValid b
      → IsMissing (prepare_key r key) (c.now_mono_f 0) b
      → ltb_ℤ (found_new r c.now_sec) (pos cost) ≡ true
      → let done = limit r key cost c b in
        (done.0 ≡ ok (to_result r cost (true, found_new r c.now_sec)))
        × IsAbsent (prepare_key r key) done.1
  unfolding limit
  limit_missing_denied r key cost c b h missing short =
      let step =
        missing_denied (prepare_key r key) r.quota.fill_rate r.quota.burst cost c.now_sec
          c.now_mono_f b h missing short in
      rw (step.0, after) (refl, step.1)

  pub limit_missing_granted :
      (r : RateLimiter) (key : Text) (cost : ℕ) (c : Clock) (b : Backend)
      → IsValid b
      → IsMissing (prepare_key r key) (c.now_mono_f 0) b
      → ltb_ℤ (found_new r c.now_sec) (pos cost) ≡ false
      → let left = found_new r c.now_sec -ℤ pos cost in
        let done = limit r key cost c b in
        (done.0 ≡ ok (to_result r cost (false, left)))
        × IsBucket (prepare_key r key) left c.now_sec done.1
        × (lookup (prepare_key r key) done.1.expire_info ≡ some (expiry r c))
  unfolding limit
  limit_missing_granted r key cost c b h missing enough =
      let step =
        missing_granted (prepare_key r key) r.quota.fill_rate r.quota.burst cost c.now_sec
          c.now_mono_f b h missing enough in
      rw (step.0, after) (refl, step.1, step.2)

  pub found_new-le : (r : RateLimiter) (now : ℕ) → found_new r now ≤ℤ pos r.quota.burst
  unfolding refilled lookup
  found_new-le r now = (min_ℤ_bounds (pos r.quota.burst) _).0

  pub filled_in_nonneg :
      (rate : Real) (last now : ℕ) → le zero_f rate ≡ true → pos 0 ≤ℤ filled_in rate last now
  filled_in_nonneg rate last now h =
      let elapsed = max_ℤ (pos 0) (pos now -ℤ pos last) in
      floor-nonneg (times (of_int elapsed) rate) (
        F.times-nonneg (of_int elapsed) rate
          (F.of_int_mono (pos 0) elapsed (max_ℤ_bounds (pos 0) (pos now -ℤ pos last)).0) h)

  pub found_nonneg :
      (r : RateLimiter) (now last : ℕ) (tokens : ℤ)
      → le zero_f r.quota.fill_rate ≡ true
      → pos 0 ≤ℤ tokens
      → pos 0 ≤ℤ found_by r now tokens last
  found_nonneg r now last tokens h p = rw refilled_bucket (
      min_ℤ_nonneg (pos r.quota.burst) (tokens +ℤ filled_in r.quota.fill_rate last now)
        (omega arith) (omega (int_laws, filled_in_nonneg r.quota.fill_rate last now h)))

  pub found_new-nonneg :
      (r : RateLimiter) (now : ℕ) → le zero_f r.quota.fill_rate ≡ true → pos 0 ≤ℤ found_new r now
  unfolding refilled lookup
  found_new-nonneg r now h =
      min_ℤ_nonneg (pos r.quota.burst) (pos r.quota.burst +ℤ filled_in r.quota.fill_rate now now)
        (omega arith) (omega (int_laws, filled_in_nonneg r.quota.fill_rate now now h))

-- ===== src/Limiter/TokenBucket/Level.antt =====
-- The level of a token bucket, and what the limiter reports of it.
use throttled_py.Action.{ok}
use throttled_py.Common.{ℕ, ◌≡◌, ◌⊎◌, inl, inr, true, false, Bool-cases}
use throttled_py.Common.Float.{Float, zero_f, le}
use throttled_py.Common.Int.{ℤ, pos, ltb_ℤ, ◌-ℤ◌, ◌≤ℤ◌, int_laws}
use throttled_py.Common.Text.{Text}
use throttled_py.Limiter.TokenBucket.{to_result, limit}
use throttled_py.Limiter.TokenBucket.Answers.{
  found_by, found_new, found-le, found_nonneg, found_new-le, found_new-nonneg, no_debt,
  limit_denied, limit_granted, limit_missing_denied, limit_missing_granted,
}
use throttled_py.Limiter.TokenBucket.Bucket.{IsBucket}
use throttled_py.Limiter.TokenBucket.Missing.{IsAbsent, IsMissing}
use throttled_py.Memory.{Backend, has_expired}
use throttled_py.Memory.Effects.{IsValid}
use throttled_py.Quota.{RateLimitResult, Clock, RateLimiter, prepare_key}

module _ ⦃F : Float⦄ where
  -- A bucket whose tokens are between 0 and the burst size, expired or not.
  pub record Level (r : RateLimiter) (key : Text) (b : Backend) : Type 0 where
    pub tokens : ℤ
    pub last : ℕ
    pub bucket : IsBucket (prepare_key r key) tokens last b
    pub nonneg : pos 0 ≤ℤ tokens
    pub capped : tokens ≤ℤ pos r.quota.burst

  -- A valid store that has no bucket for the key, or one with such a level.
  abbrev pub IsLevel : RateLimiter → Text → Backend → Type 0
  IsLevel r key b = IsAbsent (prepare_key r key) b ⊎ Level r key b

  -- An answer whose remaining tokens are in that range.
  abbrev pub Reports : RateLimiter → RateLimitResult → Type 0
  Reports r a = (pos 0 ≤ℤ a.state.remaining) × (a.state.remaining ≤ℤ pos r.quota.burst)

  left_bounds :
      (found : ℤ) (cost burst : ℕ)
      → ltb_ℤ found (pos cost) ≡ false
      → found ≤ℤ pos burst
      → (pos 0 ≤ℤ found -ℤ pos cost) × (found -ℤ pos cost ≤ℤ pos burst)
  left_bounds found cost burst enough high = (no_debt found cost enough, omega (int_laws, high))

  missing-IsLevel :
      (r : RateLimiter) (key : Text) (cost : ℕ) (c : Clock) (b : Backend)
      → le zero_f r.quota.fill_rate ≡ true
      → IsValid b
      → IsMissing (prepare_key r key) (c.now_mono_f 0) b
      → let done = limit r key cost c b in
        IsLevel r key done.1 × ((a : RateLimitResult) × (done.0 ≡ ok a) × Reports r a)
  unfolding to_result
  missing-IsLevel r key cost c b rate h missing =
      let found = found_new r c.now_sec in
      let high = found_new-le r c.now_sec in
      elim (Bool-cases (ltb_ℤ found (pos cost))) [
        | inl short ↦
            let step = limit_missing_denied r key cost c b h missing short in
            (
              inl step.1,
              (to_result r cost (true, found), step.0, (found_new-nonneg r c.now_sec rate, high)),
            )
        | inr enough ↦
            let step = limit_missing_granted r key cost c b h missing enough in
            let ends = left_bounds found cost r.quota.burst enough high in
            (
              inr (record {
                tokens = found -ℤ pos cost;
                last = c.now_sec;
                bucket = step.1;
                nonneg = ends.0;
                capped = ends.1;
              }),
              (to_result r cost (false, found -ℤ pos cost), step.0, ends),
            )
      ]

  live-IsLevel :
      (r : RateLimiter) (key : Text) (cost : ℕ) (c : Clock) (b : Backend)
      → le zero_f r.quota.fill_rate ≡ true
      → Level r key b
      → has_expired (prepare_key r key) (c.now_mono_f 0) b ≡ false
      → let done = limit r key cost c b in
        IsLevel r key done.1 × ((a : RateLimitResult) × (done.0 ≡ ok a) × Reports r a)
  unfolding to_result
  live-IsLevel r key cost c b rate h live =
      let found = found_by r c.now_sec h.tokens h.last in
      let low = found_nonneg r c.now_sec h.last h.tokens rate h.nonneg in
      let high = (found-le r c.now_sec h.last h.tokens).1 in
      elim (Bool-cases (ltb_ℤ found (pos cost))) [
        | inl short ↦
            let step = limit_denied r key cost c h.tokens h.last b h.bucket live short in
            (
              inr (record {
                tokens = h.tokens;
                last = h.last;
                bucket = step.1;
                nonneg = h.nonneg;
                capped = h.capped;
              }),
              (to_result r cost (true, found), step.0, (low, high)),
            )
        | inr enough ↦
            let step = limit_granted r key cost c h.tokens h.last b h.bucket live enough in
            let ends = left_bounds found cost r.quota.burst enough high in
            (
              inr (record {
                tokens = found -ℤ pos cost;
                last = c.now_sec;
                bucket = step.1;
                nonneg = ends.0;
                capped = ends.1;
              }),
              (to_result r cost (false, found -ℤ pos cost), step.0, ends),
            )
      ]

  -- On a valid store that holds no bucket for the key, or one, expired or not, whose tokens are between
  -- 0 and the burst size, a request to a limiter whose fill rate is not negative raises nothing, leaves
  -- such a store, and reports remaining tokens in that range.
  pub limit-IsLevel :
      (r : RateLimiter) (key : Text) (cost : ℕ) (c : Clock) (b : Backend)
      → le zero_f r.quota.fill_rate ≡ true
      → IsLevel r key b
      → let done = limit r key cost c b in
        IsLevel r key done.1 × ((a : RateLimitResult) × (done.0 ≡ ok a) × Reports r a)
  limit-IsLevel r key cost c b rate (inl h) =
      missing-IsLevel r key cost c b rate h.valid (inr h.absent)
  limit-IsLevel r key cost c b rate (inr h) =
      elim (Bool-cases (has_expired (prepare_key r key) (c.now_mono_f 0) b)) [
        | inl due ↦ missing-IsLevel r key cost c b rate h.bucket.valid (inl due)
        | inr live ↦ live-IsLevel r key cost c b rate h live
      ]

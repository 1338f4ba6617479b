-- ===== src/Limiter/TokenBucket/Clocks.antt =====
-- Token buckets that expire, and the clocks: an expired bucket has had the time to fill up.
use throttled_py.Common.{
  ℕ, ◌≡◌, true, Option, none, some, List, [], ◌∷◌, arith, Bool-cases, inl, inr,
}
use throttled_py.Common.Float.{Float, Real, of_int, zero_f, plus, times, over, le, floor}
use throttled_py.Common.Int.{ℤ, pos, ◌+ℤ◌, ◌-ℤ◌, ◌≤ℤ◌, max_ℤ, int_laws, max_ℤ_bounds}
use throttled_py.Common.Text.{Text}
use throttled_py.Dict.{lookup}
use throttled_py.Limiter.Runs.{Request}
use throttled_py.Limiter.TokenBucket.Bucket.{filled_in, fill_timeout}
use throttled_py.Memory.{Backend, has_expired}
use throttled_py.Memory.Reads.{has_expired-live}
use throttled_py.Quota.{RateLimiter}

module _ ⦃F : Float⦄ where
  -- The tokens that are filled in from the last refresh on, if there was one.
  abbrev pub gain : RateLimiter → Option ℕ → ℕ → ℤ
  gain r none now = pos 0
  gain r (some last) now = filled_in r.quota.fill_rate last now

  -- The clocks of a request behind one that was made at second `last`, and read `t` last from the
  -- monotonic clock: where some seconds passed on the monotonic clock, as many did on the other one.
  abbrev pub InSeconds : ℕ → Real → Request → Type 0
  InSeconds last t q =
      (d : ℤ)
      → le (plus t (of_int d)) (q.clock.now_mono_f 0) ≡ true
      → pos last +ℤ d ≤ℤ pos q.clock.now_sec

  -- The clocks of all the requests behind one.
  abbrev pub Follow : ℕ → Real → List Request → Type 0
  Follow last t [] = Unit
  Follow last t (q ∷ qs) = InSeconds last t q × Follow last t qs

  -- The monotonic clock does not run back after a reading.
  abbrev pub IsLater : Real → List Request → Type 0
  IsLater t [] = Unit
  IsLater t (q ∷ qs) = (le t (q.clock.now_mono_f 0) ≡ true) × IsLater t qs

  -- The clocks keep step throughout the requests.
  abbrev pub InStep : List Request → Type 0
  InStep [] = Unit
  InStep (q ∷ qs) =
      IsLater (q.clock.now_mono_f 0) qs
      × Follow q.clock.now_sec (q.clock.now_mono_f 1) qs
      × InStep qs

  -- In twice its fill time, as it is computed, a bucket fills up.
  abbrev pub Refills : RateLimiter → Type 0
  Refills r =
      let rate = r.quota.fill_rate in
      let capacity = pos r.quota.burst in
      (le zero_f rate ≡ true)
      × (capacity ≤ℤ floor (times (times (of_int (pos 2)) (over (of_int capacity) rate)) rate))

  -- What was left and what was filled in since covers a full bucket, for each of the requests.
  abbrev pub Covers : RateLimiter → ℤ → Option ℕ → List Request → Type 0
  Covers r tokens last [] = Unit
  Covers r tokens last (q ∷ qs) =
      (pos r.quota.burst ≤ℤ tokens +ℤ gain r last q.clock.now_sec) × Covers r tokens last qs

  -- Once its timeout is over, a bucket has filled up.
  filled_up :
      (r : RateLimiter) (last now : ℕ)
      → Refills r
      → pos last +ℤ fill_timeout r.quota.fill_rate r.quota.burst ≤ℤ pos now
      → pos r.quota.burst ≤ℤ filled_in r.quota.fill_rate last now
  filled_up r last now (rate, full) due =
      let fill = times (of_int (pos 2)) (over (of_int (pos r.quota.burst)) r.quota.fill_rate) in
      let timeout = fill_timeout r.quota.fill_rate r.quota.burst in
      let elapsed = max_ℤ (pos 0) (pos now -ℤ pos last) in
      let longer : timeout ≤ℤ elapsed =
        omega (int_laws, due, (max_ℤ_bounds (pos 0) (pos now -ℤ pos last)).1) in
      let enough =
        F.le_trans fill (of_int timeout) (of_int elapsed) (F.le-ceil fill)
          (F.of_int_mono timeout elapsed longer) in
      let more =
        F.floor_mono (times fill r.quota.fill_rate) (times (of_int elapsed) r.quota.fill_rate)
          (F.times_mono fill (of_int elapsed) r.quota.fill_rate enough rate) in
      omega (arith, full, more)

  -- A bucket that is expired at a reading covers a full one, from then on.
  pub due-Covers :
      (r : RateLimiter) (tokens : ℤ) (last : ℕ) (t now : Real) (qs : List Request)
      → Refills r
      → pos 0 ≤ℤ tokens
      → le (plus t (of_int (fill_timeout r.quota.fill_rate r.quota.burst))) now ≡ true
      → IsLater now qs
      → Follow last t qs
      → Covers r tokens (some last) qs
  due-Covers r tokens last t now [] full p due later follow = tt
  due-Covers r tokens last t now (q ∷ qs) full p due later follow =
      let timeout = fill_timeout r.quota.fill_rate r.quota.burst in
      let passed =
        follow.0 timeout
          (F.le_trans (plus t (of_int timeout)) now (q.clock.now_mono_f 0) due later.0) in
      (
        omega (int_laws, p, filled_up r last q.clock.now_sec full passed),
        due-Covers r tokens last t now qs full p due later.1 follow.1,
      )

  pub has_expired-is_due :
      (key : Text) (exp now : Real) (b : Backend)
      → lookup key b.expire_info ≡ some exp
      → has_expired key now b ≡ true
      → le exp now ≡ true
  has_expired-is_due key exp now b e h = elim (Bool-cases (le exp now)) [
    | inl due ↦ due
    | inr live ↦ let alive = has_expired-live key exp now b e live in absurd (cc)
  ]

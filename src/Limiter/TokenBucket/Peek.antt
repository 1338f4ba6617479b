-- ===== src/Limiter/TokenBucket/Peek.antt =====
-- What `peek` reports is what the next `limit` acts on.
use throttled_py.Action.{Outcome, ok, raised, after}
use throttled_py.Common.{ℕ, ◌≡◌, refl, ap, Bool, true, false, Bool-cases, inl, inr, if◌then◌else◌}
use throttled_py.Common.Float.{Float, Real, Num}
use throttled_py.Common.Int.{ℤ, pos, ltb_ℤ, ◌-ℤ◌}
use throttled_py.Common.Text.{Text}
use throttled_py.Dict.{Dict}
use throttled_py.Limiter.TokenBucket.{bucket_of, refilled, do_limit, to_result, limit, peek}
use throttled_py.Limiter.TokenBucket.Bucket.{items_bucket}
use throttled_py.Memory.{Backend, hgetall, expire}
use throttled_py.Memory.Effects.{IsValid}
use throttled_py.Memory.Hashes.{hset-hgetall}
use throttled_py.Quota.{RateLimitState, Clock, RateLimiter, prepare_key}

module _ ⦃F : Float⦄ where
  -- The decision on a request, from the tokens that are there.
  abbrev pub decide : ℤ → ℕ → Bool × ℤ
  decide tokens cost =
      if ltb_ℤ tokens (pos cost) then (true, tokens) else (false, tokens -ℤ pos cost)

  do_limit_decides :
      (key : Text) (rate : Real) (capacity cost now : ℕ) (t : ℕ → Real) (b : Backend)
      {kv : Dict Num}
      → IsValid b
      → (hgetall key (t 0) b).0 ≡ ok kv
      → (do_limit key rate capacity cost now t b).0
        ≡ ok (decide (refilled rate capacity now kv) cost)
  unfolding do_limit expire
  do_limit_decides key rate capacity cost now t b {kv} h read =
      let tokens = refilled rate capacity now kv in
      elim (Bool-cases (ltb_ℤ tokens (pos cost))) [
        | inl short ↦ rw (read, after) (rw short)
        | inr enough ↦
            let left = tokens -ℤ pos cost in
            rw (read, after)
              (rw
                (
                  enough,
                  hset-hgetall key (bucket_of left now) (t 0) b (items_bucket left now) h read,
                  after,
                )
                refl)
      ]

  peek_reads :
      (r : RateLimiter) (key : Text) (c : Clock) (b : Backend) (read : Outcome (Dict Num))
      {s : RateLimitState}
      → (hgetall (prepare_key r key) (c.now_mono_f 0) b).0 ≡ read
      → (peek r key c b).0 ≡ ok s
      → (kv : Dict Num) × (read ≡ ok kv)
        × (refilled r.quota.fill_rate r.quota.burst c.now_sec kv ≡ s.remaining)
  unfolding peek
  peek_reads r key c b (ok kv) {s} e p = let q = rw (e, after) at p in (kv, refl, remaining_eq s q)
    where
      remaining_of : Outcome RateLimitState → ℤ
      remaining_of (ok x) = x.remaining
      remaining_of (raised x) = pos 0

      remaining_eq :
          (x : RateLimitState) {y : RateLimitState} → ok y ≡ ok x → y.remaining ≡ x.remaining
      remaining_eq x eq = ap remaining_of eq
  peek_reads r key c b (raised x) e p = absurd (cc (rw (e, after) at p))

  -- On a valid store, the tokens that a `peek` reports decide the `limit` made at the same clock
  -- readings: it is denied exactly when they are less than its cost, and then leaves them, and
  -- otherwise it takes its cost from them.
  pub limit-peek :
      (r : RateLimiter) (key : Text) (cost : ℕ) (c : Clock) (b : Backend) {s : RateLimitState}
      → IsValid b
      → (peek r key c b).0 ≡ ok s
      → (limit r key cost c b).0 ≡ ok (to_result r cost (decide s.remaining cost))
  unfolding limit
  limit-peek r key cost c b {s} h p =
      let k = prepare_key r key in
      let (kv, read, tokens) = peek_reads r key c b (hgetall k (c.now_mono_f 0) b).0 refl p in
      rw
        (
          do_limit_decides k r.quota.fill_rate r.quota.burst cost c.now_sec c.now_mono_f b h read,
          after,
          tokens,
        )
        refl

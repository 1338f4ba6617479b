-- ===== src/Limiter/LeakingBucket/Peek.antt =====
-- What `peek` of the leaking bucket reports is what the next `limit` acts on.
use throttled_py.Action.{Outcome, ok, raised, after, ok-injective}
use throttled_py.Common.{ℕ, ◌≡◌, refl, sym, ap, ◌∙◌, none, Bool-cases, inl, inr, arith}
use throttled_py.Common.Float.{Float, Real, Num, of_int, times, over, ceil}
use throttled_py.Common.Int.{ℤ, pos, negsuc, ltb_ℤ, max_ℤ, eq_of_parts, ◌≤ℤ◌, ◌+ℤ◌, ◌-ℤ◌}
use throttled_py.Common.Text.{Text}
use throttled_py.Dict.{Dict, lookup}
use throttled_py.Limiter.LeakingBucket.{leaked, elapsed, do_limit, to_result, limit, peek}
use throttled_py.Limiter.TokenBucket.{bucket_of}
use throttled_py.Limiter.TokenBucket.Bucket.{items_bucket}
use throttled_py.Limiter.TokenBucket.Peek.{decide}
use throttled_py.Memory.{Backend, hgetall, hset, hset_items, expire}
use throttled_py.Memory.Invariant.{hgetall-IsValid, expire-IsValid}
use throttled_py.Memory.Effects.{IsValid}
use throttled_py.Memory.Hashes.{hset-IsHash, hgetall-IsHash}
use throttled_py.Quota.{RateLimitState, Clock, RateLimiter, prepare_key}

-- The room that is left decides as the level does.
level_room :
    (capacity cost : ℕ) (level : ℤ)
    → ltb_ℤ (pos capacity) (level +ℤ pos cost) ≡ ltb_ℤ (pos capacity -ℤ level) (pos cost)
unfolding ◌+ℤ◌ ◌-ℤ◌
level_room capacity cost (pos n) = ground arith
level_room capacity cost (negsuc n) = ground arith

room_after :
    (capacity cost : ℕ) (level : ℤ)
    → pos capacity -ℤ (level +ℤ pos cost) ≡ pos capacity -ℤ level -ℤ pos cost
unfolding ◌+ℤ◌ ◌-ℤ◌
room_after capacity cost (pos n) =
    eq_of_parts (pos capacity -ℤ (pos n +ℤ pos cost)) (pos capacity -ℤ pos n -ℤ pos cost)
      (ground arith)
room_after capacity cost (negsuc n) =
    eq_of_parts (pos capacity -ℤ (negsuc n +ℤ pos cost)) (pos capacity -ℤ negsuc n -ℤ pos cost)
      (ground arith)

max_of_nonneg : (z : ℤ) → pos 0 ≤ℤ z → max_ℤ (pos 0) z ≡ z
unfolding max_ℤ
max_of_nonneg (pos n) h = ground arith
max_of_nonneg (negsuc n) h = absurd (omega (arith, h))

module _ ⦃F : Float⦄ where
  -- A hash that was just read, and whose expiry was set since, can be written.
  hset-expire :
      (key : Text) (kv : Dict Num) (timeout : ℤ) (now later : Real) (b : Backend) {old : Dict Num}
      → hset_items none none kv ≡ ok kv
      → IsValid b
      → (hgetall key now b).0 ≡ ok old
      → (hset key none none kv (expire key timeout later (hgetall key now b).1).1).0 ≡ ok tt
  unfolding expire
  hset-expire key kv timeout now later b items h p =
      let b' = (hgetall key now b).1 in
      let b'' = (expire key timeout later b').1 in
      hset-IsHash key kv (lookup key b'.client) b'' items refl (hgetall-IsHash key now b h p)
        (expire-IsValid key timeout later b' (hgetall-IsValid key now b h))

  do_limit_decides :
      (key : Text) (rate : Real) (capacity cost now : ℕ) (t : ℕ → Real) (b : Backend)
      {kv : Dict Num}
      → IsValid b
      → (hgetall key (t 0) b).0 ≡ ok kv
      → (do_limit key rate capacity cost now t b).0
        ≡ ok (decide (pos capacity -ℤ leaked rate (elapsed now kv) kv) cost)
  unfolding do_limit expire
  do_limit_decides key rate capacity cost now t b {kv} h read =
      let level = leaked rate (elapsed now kv) kv in
      elim (Bool-cases (ltb_ℤ (pos capacity) (level +ℤ pos cost))) [
        | inl full ↦
            let short = sym (level_room capacity cost level) ∙ full in
            rw (read, after) (rw full (rw short refl))
        | inr fits ↦
            let enough = sym (level_room capacity cost level) ∙ fits in
            let next = bucket_of (level +ℤ pos cost) now in
            let timeout = ceil (times (of_int (pos 2)) (over (of_int (pos capacity)) rate)) in
            rw (read, after)
              (rw fits (
                rw
                  (
                    enough,
                    hset-expire key next timeout (t 0) (t 1) b
                        (items_bucket (level +ℤ pos cost) now) h read,
                    after,
                    room_after capacity cost level,
                  )
                  refl))
      ]

  peek_reads :
      (r : RateLimiter) (key : Text) (c : Clock) (b : Backend) (read : Outcome (Dict Num))
      {s : RateLimitState}
      → (hgetall (prepare_key r key) (c.now_mono_f 0) b).0 ≡ read
      → (peek r key c b).0 ≡ ok s
      → (kv : Dict Num) × (read ≡ ok kv)
        × (pos r.quota.burst -ℤ leaked r.quota.fill_rate (max_ℤ (pos 0) (elapsed c.now_sec kv)) kv
            ≡ s.remaining)
  unfolding peek
  peek_reads r key c b (ok kv) {s} e p =
      (kv, refl, ap (λ x. x.remaining) (ok-injective (rw (e, after) at p)))
  peek_reads r key c b (raised x) e p = absurd (cc (rw (e, after) at p))

  -- On a valid store and with a clock that has not gone back since the last request, the remaining
  -- requests that a `peek` of the leaking bucket reports decide the `limit` made at the same clock
  -- readings: it is denied exactly when they are less than its cost, and then leaves them, and
  -- otherwise it takes its cost from them.
  pub limit-peek_leaking :
      (r : RateLimiter) (key : Text) (cost : ℕ) (c : Clock) (b : Backend) (s : RateLimitState)
      → IsValid b
      → ((kv : Dict Num)
          → (hgetall (prepare_key r key) (c.now_mono_f 0) b).0 ≡ ok kv
          → pos 0 ≤ℤ elapsed c.now_sec kv)
      → (peek r key c b).0 ≡ ok s
      → (limit r key cost c b).0 ≡ ok (to_result r cost (decide s.remaining cost))
  unfolding limit
  limit-peek_leaking r key cost c b s h forward p =
      let k = prepare_key r key in
      let (kv, read, room) = peek_reads r key c b (hgetall k (c.now_mono_f 0) b).0 refl p in
      let shown = rw (max_of_nonneg (elapsed c.now_sec kv) (forward kv read)) at room in
      rw
        (
          do_limit_decides k r.quota.fill_rate r.quota.burst cost c.now_sec c.now_mono_f b h read,
          after,
          shown,
        )
        refl

-- ===== src/Redis/Expired.antt =====
-- The token bucket on a Redis server whose timeout is not positive.
use throttled_py.Action.{Outcome, ok, raised}
use throttled_py.Common.{
  ℕ, ◌+◌, ◌≤◌, Bool, ◌≡◌, refl, false, true, none, List, [], ◌∷◌, arith, if◌then◌else◌,
}
use throttled_py.Common.Float.{Float, Real, zero_f, le, of_int, times, floor-nonneg}
use throttled_py.Common.Int.{ℤ, pos, ltb_ℤ, ◌≤ℤ◌, ◌+ℤ◌, ◌-ℤ◌, min_ℤ, max_ℤ, max_ℤ_bounds, +ℤ_parts}
use throttled_py.Common.Text.{Text}
use throttled_py.Redis.{Server, read_bucket, moved, bucket_ttl, token_script}
use throttled_py.Redis.Laws.{IsRedis}

min_full : (n : ℕ) (z : ℤ) → pos 0 ≤ℤ z → min_ℤ (pos n) (pos n +ℤ z) ≡ pos n
unfolding min_ℤ
min_full n z h = ground (arith, +ℤ_parts (pos n) z)

-- The requests of one key, each with its cost and its time.
abbrev pub Requests : Type 0
Requests = List (ℕ × ℕ)

abbrev pub AllFit : ℕ → Requests → Type 0
AllFit capacity [] = Unit
AllFit capacity ((cost, now) ∷ qs) = (cost ≤ capacity) × AllFit capacity qs

abbrev pub asked : Requests → ℕ
asked [] = 0
asked ((cost, now) ∷ qs) = cost + asked qs

-- The cost of an answer that admits its request.
abbrev pub admitted_by : ℕ → Outcome (Bool × ℤ) → ℕ
admitted_by cost (ok (limited, tokens)) = if limited then 0 else cost
admitted_by cost (raised e) = 0

module _ ⦃F : Float⦄ {S : Type 0} (server : Server S) (key : Text) (rate : Real)
    (capacity : ℕ) where
  unfoldable pub admitted : Requests → S → ℕ
  admitted [] s = 0
  admitted ((cost, now) ∷ qs) s =
      let done = token_script server key rate capacity cost now s in
      admitted_by cost done.0 + admitted qs done.1

  -- A bucket that nothing was taken from is full.
  full :
      (now : ℕ)
      → le zero_f rate ≡ true
      → min_ℤ (pos capacity) (pos capacity +ℤ moved rate now (pos now)) ≡ pos capacity
  full now h =
      let elapsed = max_ℤ (pos 0) (pos now -ℤ pos now) in
      let some_time = (max_ℤ_bounds (pos 0) (pos now -ℤ pos now)).0 in
      let filled =
        floor-nonneg (times (of_int elapsed) rate)
          (F.times-nonneg (of_int elapsed) rate (F.of_int_mono (pos 0) elapsed some_time) h) in
      min_full capacity (moved rate now (pos now)) filled

  step :
      (cost now : ℕ) (s : S)
      → IsRedis server
      → le zero_f rate ≡ true
      → bucket_ttl rate capacity ≤ℤ pos 0
      → cost ≤ capacity
      → server.hmget key s ≡ (none, none)
      → let done = token_script server key rate capacity cost now s in
        (admitted_by cost done.0 ≡ cost) × (server.hmget key done.1 ≡ (none, none))
  unfolding token_script read_bucket
  step cost now s laws nonneg over fits fresh =
      let left = server.hset key (pos capacity -ℤ pos cost) now s in
      let enough : ltb_ℤ (pos capacity) (pos cost) ≡ false = ground arith in
      rw fresh (
        rw (full now nonneg, enough)
          (refl, laws.hmget-expire_now key (bucket_ttl rate capacity) left over))

  -- Where twice the time that it takes to fill the bucket is less than a second, the script's timeout
  -- is zero and the server deletes the bucket that it was given: of the requests of a key, each of
  -- them with a cost that the capacity allows, all are admitted, however many there are and whatever
  -- their times are.
  pub token_script-admits_all :
      (qs : Requests) (s : S)
      → IsRedis server
      → le zero_f rate ≡ true
      → bucket_ttl rate capacity ≤ℤ pos 0
      → AllFit capacity qs
      → server.hmget key s ≡ (none, none)
      → admitted qs s ≡ asked qs
  unfolding admitted
  token_script-admits_all [] s laws nonneg over fits fresh = refl
  token_script-admits_all ((cost, now) ∷ qs) s laws nonneg over fits fresh =
      let (one, again) = step cost now s laws nonneg over fits.0 fresh in
      let rest =
        token_script-admits_all qs (token_script server key rate capacity cost now s).1 laws nonneg
          over fits.1 again in
      omega (arith, one, rest)

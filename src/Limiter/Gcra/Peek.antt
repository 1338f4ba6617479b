-- ===== src/Limiter/Gcra/Peek.antt =====
-- What a peek of the GCRA limiter tells of the next request.
use throttled_py.Action.{Outcome, ok, raised, pure, after, ok-injective}
use throttled_py.Common.{
  ℕ, ◌<◌, ◌≡◌, refl, sym, ap, ◌∙◌, false, Option, Bool-cases, inl, inr, arith, if◌then◌else◌,
}
use throttled_py.Common.Float.{Float, Real, over, floor, Num}
use throttled_py.Common.Int.{ℤ, pos, negsuc, ltb_ℤ, ◌+ℤ◌, ◌-ℤ◌}
use throttled_py.Common.Text.{Text}
use throttled_py.Limiter.Gcra.{
  Answer, float_or, time_from_tat, remaining_after, do_limit, do_peek, state_of, limit, peek,
}
use throttled_py.Memory.{Backend, get}
use throttled_py.Quota.{RateLimitState, RateLimitResult, Clock, RateLimiter, prepare_key}

module _ ⦃F : Float⦄ where
  -- The requests that a TAT leaves, before any cost.
  abbrev room : Real → ℕ → Real → Real → ℤ
  room emission_interval capacity now tat =
      pos capacity +ℤ floor (over (time_from_tat now tat) emission_interval)

  admitted_open :
      (done : Outcome Unit × Backend) (a x : Answer)
      → a.limited ≡ false
      → (after (λ _. pure a) done).0 ≡ ok x
      → x.limited ≡ false
  admitted_open (ok _, b) a x free h = ap (λ y. y.limited) (sym (ok-injective h)) ∙ free
  admitted_open (raised e, b) a x free h = absurd (cc h)

  pub do_limit_decides :
      (key : Text) (emission_interval : Real) (capacity cost : ℕ) (t : ℕ → Real) (b b' : Backend)
      (raw : Option Num) (x : Answer)
      → get key (t 1) b ≡ (ok raw, b')
      → (do_limit key emission_interval capacity cost t b).0 ≡ ok x
      → x.limited
        ≡ ltb_ℤ (remaining_after emission_interval capacity cost (t 0) (float_or (t 0) raw)) (pos 0)
  unfolding do_limit
  do_limit_decides key emission_interval capacity cost t b b' raw x read h =
      let tat = float_or (t 0) raw in
      let remaining = remaining_after emission_interval capacity cost (t 0) tat in
      let p = rw (read, after) at h in
      elim (Bool-cases (ltb_ℤ remaining (pos 0))) [
        | inl short ↦ ap (λ y. y.limited) (sym (ok-injective (rw short at p))) ∙ sym short
        | inr enough ↦ admitted_open _ _ x refl (rw enough at p) ∙ sym enough
      ]

  -- A reported room decides, for every positive cost.
  room_decides :
      (capacity cost : ℕ) (n : ℤ)
      → 0 < cost
      → ltb_ℤ (pos capacity -ℤ pos cost +ℤ n) (pos 0)
        ≡ ltb_ℤ (if ltb_ℤ (pos capacity +ℤ n) (pos 1) then pos 0 else pos capacity +ℤ n) (pos cost)
  unfolding ◌+ℤ◌ ◌-ℤ◌
  room_decides capacity cost (pos k) h = ground arith
  room_decides capacity cost (negsuc k) h = ground arith

  do_peek_reports :
      (key : Text) (emission_interval : Real) (capacity : ℕ) (t : ℕ → Real) (b b' : Backend)
      (raw : Option Num) (x : Answer)
      → get key (t 1) b ≡ (ok raw, b')
      → (do_peek key emission_interval capacity t b).0 ≡ ok x
      → let left = room emission_interval capacity (t 0) (float_or (t 0) raw) in
        x.remaining ≡ (if ltb_ℤ left (pos 1) then pos 0 else left)
  unfolding do_peek
  do_peek_reports key emission_interval capacity t b b' raw x read h =
      let left = room emission_interval capacity (t 0) (float_or (t 0) raw) in
      let p = rw (read, after) at h in
      elim (Bool-cases (ltb_ℤ left (pos 1))) [
        | inl short ↦ rw short (ap (λ y. y.remaining) (sym (ok-injective (rw short at p))))
        | inr enough ↦ rw enough (ap (λ y. y.remaining) (sym (ok-injective (rw enough at p))))
      ]

  actions_agree :
      (key : Text) (emission_interval : Real) (capacity cost : ℕ) (t : ℕ → Real) (b : Backend)
      (read : Outcome (Option Num) × Backend) (seen asked : Answer)
      → get key (t 1) b ≡ read
      → 0 < cost
      → (do_peek key emission_interval capacity t b).0 ≡ ok seen
      → (do_limit key emission_interval capacity cost t b).0 ≡ ok asked
      → asked.limited ≡ ltb_ℤ seen.remaining (pos cost)
  unfolding remaining_after
  actions_agree key emission_interval capacity cost t b (ok raw, b') seen asked read h p q =
      let n = floor (over (time_from_tat (t 0) (float_or (t 0) raw)) emission_interval) in
      do_limit_decides key emission_interval capacity cost t b b' raw asked read q
      ∙ room_decides capacity cost n h
      ∙ ap (λ z. ltb_ℤ z (pos cost))
          (sym (do_peek_reports key emission_interval capacity t b b' raw seen read p))
  actions_agree key emission_interval capacity cost t b (raised e, b') seen asked read h p q =
      absurd (unfold do_peek in cc (rw (read, after) at p))

  -- The value that an action returns, where a call that only converts it returns.
  converted :
      {A B : Type 0} (f : A → B) (done : Outcome A × Backend) (y : B)
      → (after (λ a. pure (f a)) done).0 ≡ ok y
      → (a : A) × (done.0 ≡ ok a) × (f a ≡ y)
  converted f (ok a, b) y h = (a, refl, ok-injective h)
  converted f (raised e, b) y h = absurd (cc h)

  -- The remaining requests that a `peek` of GCRA reports decide the `limit` of a positive cost made at the
  -- same clock readings, where both return: it is limited exactly when they are less than its cost.
  pub limit-peek_gcra :
      (r : RateLimiter) (key : Text) (cost : ℕ) (c : Clock) (b : Backend) (s : RateLimitState)
      (x : RateLimitResult)
      → 0 < cost
      → (peek r key c b).0 ≡ ok s
      → (limit r key cost c b).0 ≡ ok x
      → x.limited ≡ ltb_ℤ s.remaining (pos cost)
  unfolding peek limit state_of
  limit-peek_gcra r key cost c b s x h p q =
      let k = prepare_key r key in
      let interval = r.quota.emission_interval in
      let capacity = r.quota.burst in
      let (seen, saw, shown) = converted _ (do_peek k interval capacity c.now_mono_f b) s p in
      let (asked, did, told) = converted _ (do_limit k interval capacity cost c.now_mono_f b) x q in
      rw (← shown, ← told)
        (actions_agree k interval capacity cost c.now_mono_f b (get k (c.now_mono_f 1) b) seen asked
          refl h saw did)

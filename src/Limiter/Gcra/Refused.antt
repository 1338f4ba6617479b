-- ===== src/Limiter/Gcra/Refused.antt =====
-- A request that the GCRA limiter refuses writes nothing.
use throttled_py.Action.{Outcome, ok, raised, pure, after, ok-injective}
use throttled_py.Common.{ℕ, ◌≡◌, refl, sym, ap, ◌∙◌, true, Option}
use throttled_py.Common.Float.{Float, Real, Num}
use throttled_py.Common.Int.{pos, ltb_ℤ}
use throttled_py.Common.Text.{Text}
use throttled_py.Limiter.Gcra.{Answer, float_or, remaining_after, do_limit, state_of, limit}
use throttled_py.Limiter.Gcra.Peek.{do_limit_decides}
use throttled_py.Memory.{Backend, get}
use throttled_py.Quota.{RateLimitResult, Clock, RateLimiter, prepare_key}

module _ ⦃F : Float⦄ where
  do_limit_refused :
      (key : Text) (emission_interval : Real) (capacity cost : ℕ) (t : ℕ → Real) (b : Backend)
      (read : Outcome (Option Num) × Backend) (x : Answer)
      → get key (t 1) b ≡ read
      → (do_limit key emission_interval capacity cost t b).0 ≡ ok x
      → x.limited ≡ true
      → (do_limit key emission_interval capacity cost t b).1 ≡ read.1
  unfolding do_limit
  do_limit_refused key emission_interval capacity cost t b (ok raw, b') x read h limited =
      let short : ltb_ℤ (remaining_after emission_interval capacity cost (t 0) (float_or (t 0) raw))
            (pos 0)
          ≡ true =
        sym (do_limit_decides key emission_interval capacity cost t b b' raw x read h) ∙ limited in
      rw (read, after) (rw short refl)
  do_limit_refused key emission_interval capacity cost t b (raised e, b') x read h limited =
      rw (read, after) refl

  converted_limited :
      (capacity : ℕ) (done : Outcome Answer × Backend) (x : RateLimitResult)
      → let end =
          after {B = RateLimitResult}
            (λ a. pure (record { limited = a.limited; state = state_of capacity a }))
            done in
        end.0 ≡ ok x → (a : Answer) × (done.0 ≡ ok a) × (a.limited ≡ x.limited) × (end.1 ≡ done.1)
  converted_limited capacity (ok a, b) x h = (a, refl, ap (λ y. y.limited) (ok-injective h), refl)
  converted_limited capacity (raised e, b) x h = absurd (cc h)

  -- A request that the GCRA limiter answers as limited leaves the store as reading the key of its TAT
  -- leaves it.
  pub limit-refused :
      (r : RateLimiter) (key : Text) (cost : ℕ) (c : Clock) (b : Backend) (x : RateLimitResult)
      → (limit r key cost c b).0 ≡ ok x
      → x.limited ≡ true
      → (limit r key cost c b).1 ≡ (get (prepare_key r key) (c.now_mono_f 1) b).1
  unfolding limit
  limit-refused r key cost c b x h limited =
      let k = prepare_key r key in
      let interval = r.quota.emission_interval in
      let done = do_limit k interval r.quota.burst cost c.now_mono_f b in
      let (a, did, same, left) = converted_limited r.quota.burst done x h in
      left
      ∙ do_limit_refused k interval r.quota.burst cost c.now_mono_f b (get k (c.now_mono_f 1) b) a
          refl did (same ∙ limited)

-- ===== src/Limiter/TokenBucket/Steps.antt =====
-- One request to a token bucket that is tracked: it is in the store with its expiry, or it is gone.
use mathlib.Core.Path.{subst}
use throttled_py.Action.{ok}
use throttled_py.Common.{
  ℕ, ◌≡◌, ◌⊎◌, refl, sym, ◌∙◌, true, false, Option, some, List, ◌∷◌, arith, Bool-cases, inl, inr,
}
use throttled_py.Common.Float.{Float, Real, of_int, plus}
use throttled_py.Common.Int.{ℤ, pos, ltb_ℤ, ◌+ℤ◌, ◌-ℤ◌, ◌≤ℤ◌}
use throttled_py.Common.Text.{Text}
use throttled_py.Dict.{lookup}
use throttled_py.Limiter.Runs.{Request}
use throttled_py.Limiter.TokenBucket.{to_result, limit}
use throttled_py.Limiter.TokenBucket.Answers.{
  found_by, found_new, found-le, found_new-le, no_debt, limit_denied, limit_granted, limit_expiry,
  limit_missing_denied, limit_missing_granted,
}
use throttled_py.Limiter.TokenBucket.Bucket.{IsBucket, fill_timeout}
use throttled_py.Limiter.TokenBucket.Missing.{IsAbsent, IsMissing}
use throttled_py.Memory.{Backend, has_expired}
use throttled_py.Memory.Effects.{IsValid}
use throttled_py.Quota.{RateLimiter, prepare_key}
use throttled_py.Limiter.TokenBucket.Clocks.{
  gain, Follow, InStep, Refills, Covers, due-Covers, has_expired-is_due,
}

module _ ⦃F : Float⦄ where
  -- The store has no bucket for the key, and a full one is covered.
  pub record Gone (r : RateLimiter) (key : Text) (qs : List Request) (tokens : ℤ) (last : Option ℕ)
      (b : Backend) : Type 0 where
    pub store : IsAbsent (prepare_key r key) b
    pub covers : Covers r tokens last qs

  -- The store has the bucket of the last admitted request, with its expiry.
  pub record Kept (r : RateLimiter) (key : Text) (qs : List Request) (tokens : ℤ) (last : Option ℕ)
      (b : Backend) : Type 0 where
    pub now : ℕ
    pub t : Real
    pub seen : last ≡ some now
    pub bucket : IsBucket (prepare_key r key) tokens now b
    pub exp :
        lookup (prepare_key r key) b.expire_info
        ≡ some (plus t (of_int (fill_timeout r.quota.fill_rate r.quota.burst)))
    pub follow : Follow now t qs
    pub nonneg : pos 0 ≤ℤ tokens

  abbrev pub Tracks : RateLimiter → Text → List Request → ℤ → Option ℕ → Backend → Type 0
  Tracks r key qs tokens last b = Gone r key qs tokens last b ⊎ Kept r key qs tokens last b

  -- A request is denied, and what is tracked stays.
  pub record Denied (r : RateLimiter) (key : Text) (q : Request) (qs : List Request) (tokens : ℤ)
      (last : Option ℕ) (b : Backend) : Type 0 where
    pub found : ℤ
    pub answer : (limit r key q.cost q.clock b).0 ≡ ok (to_result r q.cost (true, found))
    pub tracks : Tracks r key qs tokens last (limit r key q.cost q.clock b).1

  -- A request is admitted from the tokens that are there.
  pub record Granted (r : RateLimiter) (key : Text) (q : Request) (qs : List Request) (tokens : ℤ)
      (last : Option ℕ) (b : Backend) : Type 0 where
    pub found : ℤ
    pub answer :
        (limit r key q.cost q.clock b).0 ≡ ok (to_result r q.cost (false, found -ℤ pos q.cost))
    pub bound : found ≤ℤ tokens +ℤ gain r last q.clock.now_sec
    pub tracks :
        Kept r key qs (found -ℤ pos q.cost) (some q.clock.now_sec) (limit r key q.cost q.clock b).1

  abbrev pub Step : RateLimiter → Text → Request → List Request → ℤ → Option ℕ → Backend → Type 0
  Step r key q qs tokens last b = Denied r key q qs tokens last b ⊎ Granted r key q qs tokens last b

  gone_next :
      (r : RateLimiter) (key : Text) (q : Request) (qs : List Request) (tokens : ℤ)
      (last : Option ℕ) (b : Backend)
      → IsValid b
      → IsMissing (prepare_key r key) (q.clock.now_mono_f 0) b
      → Covers r tokens last (q ∷ qs)
      → Follow q.clock.now_sec (q.clock.now_mono_f 1) qs
      → Step r key q qs tokens last b
  gone_next r key q qs tokens last b h missing covers follow =
      let found = found_new r q.clock.now_sec in
      elim (Bool-cases (ltb_ℤ found (pos q.cost))) [
        | inl short ↦
            let done = limit_missing_denied r key q.cost q.clock b h missing short in
            inl (record {
              found = found;
              answer = done.0;
              tracks = inl (record { store = done.1; covers = covers.1 });
            })
        | inr enough ↦
            let done = limit_missing_granted r key q.cost q.clock b h missing enough in
            inr (record {
              found = found;
              answer = done.0;
              bound = omega (arith, found_new-le r q.clock.now_sec, covers.0);
              tracks = record {
                now = q.clock.now_sec;
                t = q.clock.now_mono_f 1;
                seen = refl;
                bucket = done.1;
                exp = done.2;
                follow = follow;
                nonneg = no_debt found q.cost enough;
              };
            })
      ]

  live_next :
      (r : RateLimiter) (key : Text) (q : Request) (qs : List Request) (tokens : ℤ)
      (last : Option ℕ) (b : Backend) (h : Kept r key (q ∷ qs) tokens last b)
      → has_expired (prepare_key r key) (q.clock.now_mono_f 0) b ≡ false
      → Follow q.clock.now_sec (q.clock.now_mono_f 1) qs
      → Step r key q qs tokens last b
  live_next r key q qs tokens last b h live follow =
      let found = found_by r q.clock.now_sec tokens h.now in
      let exp = limit_expiry r key q.cost q.clock tokens h.now b h.bucket live in
      elim (Bool-cases (ltb_ℤ found (pos q.cost))) [
        | inl short ↦
            let done = limit_denied r key q.cost q.clock tokens h.now b h.bucket live short in
            inl (record {
              found = found;
              answer = done.0;
              tracks = inr (record {
                now = h.now;
                t = h.t;
                seen = h.seen;
                bucket = done.1;
                exp = rw short at exp ∙ h.exp;
                follow = h.follow.1;
                nonneg = h.nonneg;
              });
            })
        | inr enough ↦
            let done = limit_granted r key q.cost q.clock tokens h.now b h.bucket live enough in
            inr (record {
              found = found;
              answer = done.0;
              bound = rw h.seen (found-le r q.clock.now_sec h.now tokens).0;
              tracks = record {
                now = q.clock.now_sec;
                t = q.clock.now_mono_f 1;
                seen = refl;
                bucket = done.1;
                exp = rw enough at exp;
                follow = follow;
                nonneg = no_debt found q.cost enough;
              };
            })
      ]

  pub step :
      (r : RateLimiter) (key : Text) (q : Request) (qs : List Request) (tokens : ℤ)
      (last : Option ℕ) (b : Backend)
      → Refills r
      → InStep (q ∷ qs)
      → Tracks r key (q ∷ qs) tokens last b
      → Step r key q qs tokens last b
  step r key q qs tokens last b full clocks (inl h) =
      gone_next r key q qs tokens last b h.store.valid (inr h.store.absent) h.covers clocks.1
  step r key q qs tokens last b full clocks (inr h) =
      let k = prepare_key r key in
      let now = q.clock.now_mono_f 0 in
      let exp = plus h.t (of_int (fill_timeout r.quota.fill_rate r.quota.burst)) in
      elim (Bool-cases (has_expired k now b)) [
        | inl due ↦
            let over_due = has_expired-is_due k exp now b h.exp due in
            let covers =
              due-Covers r tokens h.now h.t now (q ∷ qs) full h.nonneg over_due
                (F.le_refl now, clocks.0) h.follow in
            gone_next r key q qs tokens last b h.bucket.valid (inl due)
              (subst (λ l. Covers r tokens l (q ∷ qs)) (sym h.seen) covers) clocks.1
        | inr live ↦ live_next r key q qs tokens last b h live clocks.1
      ]

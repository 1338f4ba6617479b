-- ===== src/Limiter/TokenBucket/Bound.antt =====
-- What the token-bucket limiter admits over time, also where its buckets expire.
use throttled_py.Common.{ℕ, ◌+◌, Option, none, some, List, [], ◌∷◌, arith, if◌then◌else◌, inl, inr}
use throttled_py.Common.Float.{Float}
use throttled_py.Common.Int.{ℤ, pos, ◌+ℤ◌, ◌-ℤ◌, ◌≤ℤ◌, int_laws}
use throttled_py.Common.Text.{Text}
use throttled_py.Limiter.Runs.{Request, is_admitted, admitted}
use throttled_py.Limiter.TokenBucket.{to_result, limit}
use throttled_py.Limiter.TokenBucket.Missing.{IsAbsent}
use throttled_py.Memory.{Backend}
use throttled_py.Quota.{RateLimiter, prepare_key}
use throttled_py.Limiter.TokenBucket.Clocks.{gain, InStep, Refills, Covers}
use throttled_py.Limiter.TokenBucket.Steps.{Tracks, step}

module _ ⦃F : Float⦄ where
  -- The tokens that are filled in from the last refresh on, up to the last admitted request.
  unfoldable pub earned : RateLimiter → Text → Option ℕ → List Request → Backend → ℤ
  earned r key last [] b = pos 0
  earned r key last (q ∷ qs) b =
      let done = limit r key q.cost q.clock b in
      let now = q.clock.now_sec in
      let later = earned r key (if is_admitted done.0 then some now else last) qs done.1 in
      if is_admitted done.0 then gain r last now +ℤ later else later

  granted_sum :
      (cost rest : ℕ) (found tokens gain later : ℤ)
      → found ≤ℤ tokens +ℤ gain
      → pos rest ≤ℤ found -ℤ pos cost +ℤ later
      → pos (cost + rest) ≤ℤ tokens +ℤ (gain +ℤ later)
  granted_sum cost rest found tokens gain later h k = omega int_laws

  tracked-le-earned :
      (r : RateLimiter) (key : Text) (qs : List Request) (tokens : ℤ) (last : Option ℕ)
      (b : Backend)
      → Refills r
      → InStep qs
      → pos 0 ≤ℤ tokens
      → Tracks r key qs tokens last b
      → pos (admitted (limit r) key qs b) ≤ℤ tokens +ℤ earned r key last qs b
  unfolding admitted earned to_result
  tracked-le-earned r key [] tokens last b full clocks p h = omega int_laws
  tracked-le-earned r key (q ∷ qs) tokens last b full clocks p h =
      let b' = (limit r key q.cost q.clock b).1 in
      elim (step r key q qs tokens last b full clocks h) [
        | inl done ↦
            let rest = tracked-le-earned r key qs tokens last b' full clocks.2 p done.tracks in
            rw done.answer (omega (arith, rest))
        | inr done ↦
            let left = done.found -ℤ pos q.cost in
            let rest =
              tracked-le-earned r key qs left (some q.clock.now_sec) b' full clocks.2
                done.tracks.nonneg (inr done.tracks) in
            rw done.answer (
              granted_sum q.cost (admitted (limit r) key qs b') done.found tokens
                (gain r last q.clock.now_sec) (earned r key (some q.clock.now_sec) qs b') done.bound
                rest)
      ]

  fresh-Covers : (r : RateLimiter) (qs : List Request) → Covers r (pos r.quota.burst) none qs
  fresh-Covers r [] = tt
  fresh-Covers r (q ∷ qs) = (omega int_laws, fresh-Covers r qs)

  -- On a valid store that holds no bucket for the key, the requests of the key are admitted for at
  -- most the burst size and what the fill rate yields from the first admitted request up to the last
  -- one, also where the bucket expires between them and is made anew. The clocks keep step: the
  -- monotonic clock does not run back, and where some seconds pass on it between the timeout that an
  -- admitted request sets and a later read, as many pass between the readings of the other clock. The
  -- fill rate is not negative, and twice the fill time, in floats, is enough to fill a bucket.
  pub admitted-le-earned :
      (r : RateLimiter) (key : Text) (qs : List Request) (b : Backend)
      → IsAbsent (prepare_key r key) b
      → InStep qs
      → Refills r
      → pos (admitted (limit r) key qs b) ≤ℤ pos r.quota.burst +ℤ earned r key none qs b
  admitted-le-earned r key qs b h clocks full =
      tracked-le-earned r key qs (pos r.quota.burst) none b full clocks (omega arith)
        (inl (record { store = h; covers = fresh-Covers r qs }))

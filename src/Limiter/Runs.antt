-- ===== src/Limiter/Runs.antt =====
-- Sequences of requests of one key, made one after the other to a rate limiter.
use throttled_py.Action.{Action, Outcome, ok, raised}
use throttled_py.Common.{ℕ, ◌+◌, Bool, false, not, List, [], ◌∷◌, if◌then◌else◌}
use throttled_py.Common.Float.{Float}
use throttled_py.Common.Text.{Text}
use throttled_py.Memory.{Backend}
use throttled_py.Quota.{RateLimitResult, Clock}

module _ ⦃F : Float⦄ where
  pub record Request : Type 0 where
    pub cost : ℕ
    pub clock : Clock

  -- `limit` of a rate limiter
  abbrev pub Limit : Type 0
  Limit = Text → ℕ → Clock → Action Backend RateLimitResult

  abbrev pub is_admitted : Outcome RateLimitResult → Bool
  is_admitted (ok r) = not r.limited
  is_admitted (raised e) = false

  -- The cost of a request that is admitted; a denied one, and one that raises, count as 0.
  abbrev pub admitted_cost : ℕ → Outcome RateLimitResult → ℕ
  admitted_cost cost answer = if is_admitted answer then cost else 0

  -- The total cost that is admitted.
  unfoldable pub admitted : Limit → Text → List Request → Backend → ℕ
  admitted limit key [] b = 0
  admitted limit key (q ∷ qs) b =
      let done = limit key q.cost q.clock b in
      admitted_cost q.cost done.0 + admitted limit key qs done.1

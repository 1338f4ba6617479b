-- ===== src/Limiter/FixedWindow/Bound.antt =====
-- What the fixed-window limiter admits in one window, as its callers see it.
use throttled_py.Action.{ok, after}
use throttled_py.Common.{ℕ, ◌+◌, ◌-◌, ◌/◌, ◌≤◌, ◌≡◌, refl, false, none, List, [], ◌∷◌, arith}
use throttled_py.Common.Float.{Float, Real, of_int, plus, le}
use throttled_py.Common.Int.{ℤ, pos, ◌+ℤ◌, pos-add}
use throttled_py.Common.Text.{Text}
use throttled_py.Limiter.FixedWindow.{period_key, result, limit}
use throttled_py.Limiter.FixedWindow.Window.{IsOpen, exceeds, do_limit-IsOpen, do_limit_first}
use throttled_py.Limiter.Runs.{Request, admitted_cost, admitted}
use throttled_py.Memory.{Backend, get}
use throttled_py.Memory.Effects.{IsValid}
use throttled_py.Quota.{Clock, RateLimiter}

module _ ⦃F : Float⦄ where
  -- Every request falls in the window, and before the expiry of its count.
  abbrev pub InWindow : RateLimiter → ℕ → Real → List Request → Type 0
  InWindow r window exp [] = Unit
  InWindow r window exp (q ∷ qs) =
      (q.clock.now_sec / r.quota.period_sec ≡ window)
      × (le exp (q.clock.now_mono_f 0) ≡ false)
      × InWindow r window exp qs

  -- Two times in one window have one storage key.
  pub period_key_window :
      (r : RateLimiter) (key : Text) (now now' : ℕ)
      → now / r.quota.period_sec ≡ now' / r.quota.period_sec
      → period_key r key now ≡ period_key r key now'
  unfolding period_key
  period_key_window r key now now' e = rw e

  -- A request in an open window: its answer, and the count that it leaves.
  pub limit-IsOpen :
      (r : RateLimiter) (key : Text) (cost : ℕ) (c : Clock) (count : ℤ) (exp : Real) (b : Backend)
      → IsOpen (period_key r key c.now_sec) count exp b
      → le exp (c.now_mono_f 0) ≡ false
      → let current = count +ℤ pos cost in
        let done = limit r key cost c b in
        (done.0 ≡ ok (result r c.now_sec (exceeds r.quota.rate.limit cost current, current)))
        × IsOpen (period_key r key c.now_sec) current exp done.1
  unfolding limit
  limit-IsOpen r key cost c count exp b h live =
      let k = period_key r key c.now_sec in
      let step =
        do_limit-IsOpen k r.quota.period_sec r.quota.rate.limit cost c.now_mono_f count exp b h
          live in
      rw (step.0, after) (refl, step.1)

  answer_bound :
      (r : RateLimiter) (now cost count : ℕ)
      → let current = pos count +ℤ pos cost in
        let a = result r now (exceeds r.quota.rate.limit cost current, current) in
        admitted_cost cost (ok a) + (r.quota.rate.limit - (count + cost))
        ≤ r.quota.rate.limit - count
  unfolding result
  answer_bound r now cost count = rw pos-add (ground arith)

  admitted_open :
      (r : RateLimiter) (key : Text) (start : ℕ) (exp : Real) (qs : List Request) (count : ℕ)
      (b : Backend)
      → IsOpen (period_key r key start) (pos count) exp b
      → InWindow r (start / r.quota.period_sec) exp qs
      → admitted (limit r) key qs b ≤ r.quota.rate.limit - count
  unfolding admitted
  admitted_open r key start exp [] count b h w = omega arith
  admitted_open r key start exp (q ∷ qs) count b h (same, live, later) =
      let e = period_key_window r key q.clock.now_sec start same in
      let step = limit-IsOpen r key q.cost q.clock (pos count) exp b (rw e h) live in
      let opened : IsOpen (period_key r key start) (pos (count + q.cost)) exp
          (limit r key q.cost q.clock b).1 =
        rw (e, pos-add) at step.1 in
      let rest =
        admitted_open r key start exp qs (count + q.cost) (limit r key q.cost q.clock b).1 opened
          later in
      rw step.0 (omega (arith, rest, answer_bound r q.clock.now_sec q.cost count))

  -- The first request of a window: its answer, and the window that it opens.
  limit_first :
      (r : RateLimiter) (key : Text) (cost : ℕ) (c : Clock) (b : Backend)
      → (get (period_key r key c.now_sec) (c.now_mono_f 0) b).0 ≡ ok none
      → IsValid b
      → let done = limit r key cost c b in
        (done.0 ≡ ok (result r c.now_sec (exceeds r.quota.rate.limit cost (pos cost), pos cost)))
        × IsOpen
            (period_key r key c.now_sec)
            (pos cost)
            (plus (c.now_mono_f 1) (of_int (pos r.quota.period_sec)))
            done.1
  unfolding limit
  limit_first r key cost c b missing h =
      let k = period_key r key c.now_sec in
      let step =
        do_limit_first k r.quota.period_sec r.quota.rate.limit cost c.now_mono_f b missing h in
      rw (step.0, after) (refl, step.1)

  first_bound :
      (r : RateLimiter) (now cost : ℕ)
      → let a = result r now (exceeds r.quota.rate.limit cost (pos cost), pos cost) in
        admitted_cost cost (ok a) + (r.quota.rate.limit - cost) ≤ r.quota.rate.limit
  unfolding result
  first_bound r now cost = ground arith

  -- On a valid store that holds no count for the window, the requests of one key in one window, made
  -- one after the other before the count expires, are admitted for at most the limit in total.
  pub admitted-le-limit :
      (r : RateLimiter) (key : Text) (q : Request) (qs : List Request) (b : Backend)
      → IsValid b
      → (get (period_key r key q.clock.now_sec) (q.clock.now_mono_f 0) b).0 ≡ ok none
      → InWindow r
          (q.clock.now_sec / r.quota.period_sec)
          (plus (q.clock.now_mono_f 1) (of_int (pos r.quota.period_sec)))
          qs
      → admitted (limit r) key (q ∷ qs) b ≤ r.quota.rate.limit
  unfolding admitted
  admitted-le-limit r key q qs b h missing w =
      let step = limit_first r key q.cost q.clock b missing h in
      let rest =
        admitted_open r key q.clock.now_sec
          (plus (q.clock.now_mono_f 1) (of_int (pos r.quota.period_sec))) qs q.cost
          (limit r key q.cost q.clock b).1 step.1 w in
      rw step.0 (omega (arith, rest, first_bound r q.clock.now_sec q.cost))

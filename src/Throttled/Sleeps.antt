-- ===== src/Throttled/Sleeps.antt =====
-- How long the retries of a call sleep.
use throttled_py.Action.{Outcome, ok, raised, Action, after}
use throttled_py.Common.{
  ℕ, ◌≡◌, true, not, ◌||◌, Option, none, some, List, [], ◌∷◌, Bool-cases, inl, inr,
}
use throttled_py.Common.Float.{Float, Real, zero_f, minus, le, lt, Num, to_float, max_f, min_f}
use throttled_py.Common.Text.{Text}
use throttled_py.Common.Unicode.{Unicode}
use throttled_py.Hooks.Keeps.{chain-keeps}
use throttled_py.Quota.{RateLimitResult, Clock}
use throttled_py.Registry.{Instance, make_limiter}
use throttled_py.Registry.Builtin.{memory_store}
use throttled_py.Throttled.{
  Throttled, World, Round, Env, retry, keep_limiter, check, limiter_from, limiter, ask, do_limit,
  context_of, checked_limit, limit_args, limit_with, limit, wait_loop, wait, end_round,
}
use throttled_py.Throttled.Logic.{
  eq_f, non_blocking, get_wait_time, is_exit_waiting, wait_interval, wait_min_interval,
}

module _ ⦃F : Float⦄ where
  -- Each of the times lies between the two intervals.
  abbrev pub AllShort : List Real → Type 0
  AllShort [] = Unit
  AllShort (time ∷ times) =
      (le wait_min_interval time ≡ true) × (le time wait_interval ≡ true) × AllShort times

  abbrev Calm : World → Type 0
  Calm w = AllShort w.sleeps

  max_low : (a b : Real) → le b (max_f a b) ≡ true
  max_low a b = elim (Bool-cases (le b a)) [
    | inl above ↦ rw above above
    | inr below ↦ rw below (F.le_refl b)
  ]

  max_high : (a b c : Real) → le a c ≡ true → le b c ≡ true → le (max_f a b) c ≡ true
  max_high a b c h k = elim (Bool-cases (le b a)) [
    | inl above ↦ rw above h
    | inr below ↦ rw below k
  ]

  min_high : (a b : Real) → le (min_f a b) b ≡ true
  min_high a b = elim (Bool-cases (le a b)) [
    | inl below ↦ rw below below
    | inr above ↦ rw above (F.le_refl b)
  ]

  module _ (ordered : le wait_min_interval wait_interval ≡ true) where
    wait_time-bounds :
        (retry_after : Real)
        → (le wait_min_interval (get_wait_time retry_after) ≡ true)
          × (le (get_wait_time retry_after) wait_interval ≡ true)
    unfolding get_wait_time
    wait_time-bounds retry_after =
        let capped = min_f retry_after wait_interval in
        (
          max_low capped wait_min_interval,
          max_high capped wait_min_interval wait_interval (min_high retry_after wait_interval)
              ordered,
        )

    wait_loop-Calm :
        (timeout retry_after start : Real) (readings : List Real) (w : World)
        → Calm w
        → Calm (wait_loop timeout retry_after start readings w).1
    unfolding wait_loop
    wait_loop-Calm timeout retry_after start [] w s = s
    wait_loop-Calm timeout retry_after start (now ∷ readings) w s =
        let w' = record w { sleeps = get_wait_time retry_after ∷ w.sleeps } in
        let (low, high) = wait_time-bounds retry_after in
        elim (Bool-cases (is_exit_waiting now start retry_after timeout)) [
          | inl over ↦ rw over (low, high, s)
          | inr more ↦ rw more (wait_loop-Calm timeout retry_after start readings w' (low, high, s))
        ]

    wait-Calm :
        (timeout retry_after : Real) (r : Round) (w : World)
        → Calm w
        → Calm (wait timeout retry_after r w).1
    unfolding wait
    wait-Calm timeout retry_after r w s = elim (Bool-cases (le retry_after zero_f)) [
      | inl soon ↦ rw soon s
      | inr later ↦ rw later (wait_loop-Calm timeout retry_after r.wait_start r.readings w s)
    ]

    -- What follows a result keeps the sleeps short.
    after-Calm :
        {A B : Type 0} (f : A → Action World B) (done : Outcome A × World)
        → ((a : A) (w : World) → Calm w → Calm (f a w).1)
        → Calm done.1
        → Calm (after f done).1
    after-Calm f (ok a, w) h s = h a w s
    after-Calm f (raised e, w) h s = s

    retry-Calm :
        (ask : Clock → Action World RateLimitResult) (timeout start : Real) (rounds : List Round)
        (result : RateLimitResult) (w : World)
        → ((c : Clock) (w : World) → Calm w → Calm (ask c w).1)
        → Calm w
        → Calm (retry ask timeout start rounds result w).1
    unfolding retry end_round
    retry-Calm ask timeout start [] result w h s =
        elim (Bool-cases (lt timeout (to_float result.state.retry_after))) [
          | inl over ↦ rw over s
          | inr more ↦ rw more s
        ]
    retry-Calm ask timeout start (r ∷ rounds) result w h s =
        let retry_after = to_float result.state.retry_after in
        elim (Bool-cases (lt timeout retry_after)) [
          | inl over ↦ rw over s
          | inr more ↦ rw more (
              after-Calm _ (wait timeout retry_after r w)
                (λ _ v p.
                  after-Calm (end_round timeout start r (retry ask timeout start rounds))
                    (ask r.clock v)
                    (λ next u q.
                      elim (Bool-cases (not next.limited || le timeout (minus r.now start))) [
                        | inl over ↦ rw over q
                        | inr again ↦ rw again (retry-Calm ask timeout start rounds next u h q)
                      ])
                    (h r.clock v p))
                (wait-Calm timeout retry_after r w s))
        ]

    module _ ⦃U : Unicode⦄ {H : Type 0} (t : Throttled H) where
      keep-Calm : (made : Outcome Instance) (w : World) → Calm w → Calm (keep_limiter made w).1
      unfolding keep_limiter
      keep-Calm (ok i) w s = s
      keep-Calm (raised e) w s = s

      limiter-Calm :
          (found : Option Instance) (w : World) → Calm w → Calm (limiter_from t found w).1
      unfolding limiter_from
      limiter-Calm (some i) w s = s
      limiter-Calm none w s =
          keep-Calm (make_limiter t.limiter_cls t.quota memory_store [] t.key_prefix) w s

      ask-Calm :
          (key : Text) (cost : ℕ) (c : Clock) (w : World) → Calm w → Calm (ask t key cost c w).1
      unfolding ask limiter check
      ask-Calm key cost c w s =
          after-Calm (λ i. check i key cost c) (limiter t w) (λ i v p. p)
            (limiter-Calm w.limiter w s)

      do_limit-Calm :
          (key : Text) (cost : ℕ) (timeout : Real) (env : Env) (w : World)
          → Calm w
          → Calm (do_limit t key cost timeout env w).1
      unfolding do_limit
      do_limit-Calm key cost timeout env w s =
          after-Calm _ (ask t key cost env.clock w)
            (λ result v p. elim (Bool-cases (eq_f timeout non_blocking || not result.limited)) [
              | inl over ↦ rw over p
              | inr more ↦ rw more (
                  retry-Calm (ask t key cost) timeout env.start_time env.rounds result v
                    (ask-Calm key cost) p)
            ])
            (ask-Calm key cost env.clock w s)

      with_args-Calm :
          (args : Outcome (ℕ × Text × Num)) (env : Env) (w : World) (h : H)
          → Calm w
          → Calm (limit_with t args env (w, h)).1.0
      unfolding limit_with checked_limit
      with_args-Calm (raised e) env w h s = s
      with_args-Calm (ok (n, k, timeout)) env w h s =
          chain-keeps Calm t.hooks (do_limit t k n (to_float timeout) env) (context_of t k n)
            (λ v p. do_limit-Calm k n (to_float timeout) env v p) (w, h) s

  -- Where a fifth is at most a half, each sleep of a call of `limit` lasts between these two parts of
  -- a second, whatever the limiter tells to wait, and whatever the hooks do.
  pub limit-sleeps :
      ⦃U : Unicode⦄ {H : Type 0} (t : Throttled H) (key : Option Text) (cost : Num)
      (timeout : Option Num) (env : Env) (w : World) (h : H)
      → le wait_min_interval wait_interval ≡ true
      → AllShort w.sleeps
      → AllShort (limit t key cost timeout env (w, h)).1.0.sleeps
  unfolding limit
  limit-sleeps t key cost timeout env w h ordered s =
      with_args-Calm ordered t (limit_args t key cost timeout) env w h s

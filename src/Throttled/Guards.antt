-- ===== src/Throttled/Guards.antt =====
-- The decorator and the context manager: what they guard runs after exactly one granted request.
use throttled_py.Action.{Exc, limited_error, Outcome, ok, raised, Action, after}
use throttled_py.Common.{ℕ, Option, ◌+◌, ◌≡◌, ◌⊎◌, inl, inr, refl, [], none, Bool-cases, arith}
use throttled_py.Common.Float.{Float, Num, int, to_float}
use throttled_py.Common.Int.{pos}
use throttled_py.Common.Text.{Text}
use throttled_py.Common.Unicode.{Unicode}
use throttled_py.Hooks.{alone, build_hook_chain}
use throttled_py.Quota.{RateLimitResult}
use throttled_py.Throttled.{
  Throttled, World, Env, checked_limit, limit_args, limit_with, limit, admit, enter, decorated,
}
use throttled_py.Throttled.Admits.{do_limit-Tells}
use throttled_py.Throttled.Grants.{grants, Tells}

-- 1 for a call that returns, 0 for one that raises.
abbrev pub returned : {A : Type 0} → Outcome A → ℕ
returned (ok a) = 1
returned (raised e) = 0

module _ ⦃F : Float⦄ ⦃U : Unicode⦄ {H : Type 0} where
  -- `limit` as it tells of the limiter, the hooks' state left aside.
  abbrev LimitTells : ℕ → Outcome RateLimitResult × (World × H) → Type 0
  LimitTells n done = Tells n (done.0, done.1.0)

  admit-returned :
      (n : ℕ) (done : Outcome RateLimitResult × (World × H))
      → LimitTells n done
      → let end = after (λ r. admit r) done in grants end.1.0 ≡ returned end.0 + n
  unfolding admit
  admit-returned n (raised e, w) h = h
  admit-returned n (ok r, w) h = elim (Bool-cases r.limited) [
    | inl limited ↦ rw limited (rw limited at h)
    | inr free ↦ rw free (rw free at h)
  ]

  -- The guarded function runs after one grant, or the call raises without one.
  abbrev Guards : {A : Type 0} → ℕ → Action (World × H) A → Outcome A × (World × H) → Type 0
  Guards n func done =
      ((e : Exc) × (s : World × H) × (done ≡ (raised e, s)) × (grants s.0 ≡ n))
      ⊎ ((s : World × H) × (done ≡ func s) × (grants s.0 ≡ n + 1))

  guard-admitted :
      {A : Type 0} (n : ℕ) (func : Action (World × H) A)
      (done : Outcome RateLimitResult × (World × H))
      → LimitTells n done
      → Guards n func (after (λ r s. after (λ _. func) (admit r s)) done)
  unfolding admit
  guard-admitted n func (raised e, s) h = inl (e, s, refl, omega (arith, h))
  guard-admitted n func (ok r, s) h = elim (Bool-cases r.limited) [
    | inl limited ↦
        let told = rw limited at h in inl (limited_error, s, rw limited refl, omega (arith, told))
    | inr free ↦ let told = rw free at h in inr (s, rw free refl, omega (arith, told))
  ]

module _ ⦃F : Float⦄ ⦃U : Unicode⦄ {H : Type 0} where
  with_args-Tells :
      (t : Throttled H) (args : Outcome (ℕ × Text × Num)) (env : Env) (w : World) (h : H)
      → t.hooks ≡ []
      → LimitTells (grants w) (limit_with t args env (w, h))
  unfolding limit_with checked_limit build_hook_chain alone
  with_args-Tells t (raised e) env w h bare = omega arith
  with_args-Tells t (ok (n, k, timeout)) env w h bare =
      rw bare (do_limit-Tells t k n (to_float timeout) env w)

  -- A call of `limit` without hooks tells what its limiter granted.
  pub limit-Tells :
      (t : Throttled H) (key : Option Text) (cost : Num) (timeout : Option Num) (env : Env)
      (w : World) (h : H)
      → t.hooks ≡ []
      → LimitTells (grants w) (limit t key cost timeout env (w, h))
  unfolding limit
  limit-Tells t key cost timeout env w h bare =
      with_args-Tells t (limit_args t key cost timeout) env w h bare

  -- Without hooks, the context manager is entered exactly if its call was granted one request, and
  -- raises exactly if it was granted none.
  pub enter-granted :
      (t : Throttled H) (env : Env) (w : World) (h : H)
      → t.hooks ≡ []
      → let done = enter t env (w, h) in grants done.1.0 ≡ returned done.0 + grants w
  unfolding enter limit
  enter-granted t env w h bare =
      admit-returned (grants w) (limit t none (int (pos 1)) none env (w, h))
        (limit-Tells t none (int (pos 1)) none env w h bare)

  -- Without hooks, a call of a decorated function raises, and its limiter granted no request, or it is
  -- the call of the function itself, right after the limiter granted one.
  pub decorated-granted :
      {A : Type 0} (t : Throttled H) (func : Action (World × H) A) (env : Env) (w : World) (h : H)
      → t.hooks ≡ []
      → Guards (grants w) func (decorated t func env (w, h))
  unfolding decorated limit
  decorated-granted t func env w h bare =
      let cost = int (pos t.cost) in
      guard-admitted (grants w) func (limit t none cost none env (w, h))
        (limit-Tells t none cost none env w h bare)

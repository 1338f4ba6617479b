-- ===== src/Otel/Recorded.antt =====
-- What the hook records.
use throttled_py.Action.{Exc, ok, raised, Action}
use throttled_py.Asyncio.Hooks.Cancelled.{Passes}
use throttled_py.Common.{◌≡◌, refl, [], ◌∷◌}
use throttled_py.Common.Float.{Float, Real, minus}
use throttled_py.Hooks.{HookContext, alone, track, run, settle, chain_fn, build_hook_chain}
use throttled_py.Hooks.Observers.{Observes}
use throttled_py.Hooks.Once.{CallsOnce}
use throttled_py.Quota.{RateLimitResult}
use throttled_py.Otel.{Metrics, record_metrics, on_limit, async_on_limit}

module _ ⦃F : Float⦄ (start stop : Real) (context : HookContext) where
  -- The hook calls `call_next` once, and returns its result.
  pub on_limit-CallsOnce : CallsOnce (on_limit start stop context)
  unfolding on_limit
  on_limit-CallsOnce (ok result) = λ m. tt
  on_limit-CallsOnce (raised e) = tt

  pub on_limit-Observes : Observes (on_limit start stop context)
  unfolding on_limit
  on_limit-Observes result = λ m. refl

  -- Its asynchronous twin lets a cancellation pass.
  pub async_on_limit-Passes : Passes (async_on_limit start stop context)
  unfolding async_on_limit
  async_on_limit-Passes = refl

module _ ⦃F : Float⦄ {S : Type 0} (start stop : Real) (context : HookContext) where
  -- Around a check that returns, the hook alone adds the cost of the call and its duration once, with
  -- the attributes of its context and of its result, and returns the result.
  pub on_limit-records :
      (do_limit : Action S RateLimitResult) (s : S) (m : Metrics) {r : RateLimitResult}
      → (do_limit s).0 ≡ ok r
      → build_hook_chain (on_limit start stop ∷ []) do_limit context (s, m)
        ≡ (ok r, ((do_limit s).1, record_metrics context r (minus stop start) m))
  unfolding build_hook_chain chain_fn settle run alone track on_limit
  on_limit-records do_limit s m answers =
      rw (answers, build_hook_chain, chain_fn, alone, run, settle, track) refl

  -- Around a check that raises, it adds nothing: the check is run again, and its second outcome is
  -- that of the chain.
  pub on_limit-raised :
      (do_limit : Action S RateLimitResult) (s : S) (m : Metrics) {e : Exc}
      → (do_limit s).0 ≡ raised e
      → build_hook_chain (on_limit start stop ∷ []) do_limit context (s, m)
        ≡ ((do_limit (do_limit s).1).0, ((do_limit (do_limit s).1).1, m))
  unfolding build_hook_chain chain_fn settle run alone track on_limit
  on_limit-raised do_limit s m fails =
      rw (fails, build_hook_chain, chain_fn, alone, run, settle, track) refl

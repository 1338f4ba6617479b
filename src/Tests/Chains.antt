-- ===== src/Tests/Chains.antt =====
-- Chains of hooks and wrapped methods on concrete inputs.
use throttled_py.Action.{Exc, Outcome, ok, raised, foreign, store_unavailable, value_error, Action}
use throttled_py.Common.{ℕ, ◌+◌, ◌^◌, ◌≡◌, refl, Bool, true, false, some, List, [], ◌∷◌}
use throttled_py.Common.Text.{codes}
use throttled_py.Hooks.{
  HookContext, Script, returns, raises, calls, reads, writes, Hook, build_hook_chain,
}
use throttled_py.Hooks.Errors.{relays, tried, chain-raised, relays-tried}
use throttled_py.Hooks.Observers.{chain-observed}
use throttled_py.Hooks.Once.{Silent, Spent, counted, chain-at_most_once}
use throttled_py.Store.{wrap_method}

abbrev context : HookContext
context = record {
  key = codes "k";
  cost = 1;
  algorithm = codes "token_bucket";
  store_type = codes "memory";
}

abbrev answer : Outcome ℕ → Script ℕ ℕ
answer (ok r) = returns r
answer (raised e) = raises e

-- counts its calls in the hooks' state
abbrev metric : Hook ℕ ℕ
metric c = reads (λ h. writes (h + 1) (calls answer))

-- fails after its call
abbrev flaky : Hook ℕ ℕ
flaky c = calls (λ o. writes 7 (raises value_error))

abbrev hooks : List (Hook ℕ ℕ)
hooks = metric ∷ flaky ∷ []

abbrev do_limit : Action ℕ ℕ
do_limit s = (ok s, s + 1)

abbrev failing : Action ℕ ℕ
failing s = (raised store_unavailable, s + 1)

silent : (o : Outcome ℕ) → Silent (answer o)
silent (ok r) = tt
silent (raised e) = tt

chain-at_most_once_example :
    let done = build_hook_chain hooks (counted do_limit) context ((5, 0), 0) in
    Spent 0 done.0 done.1.0.1
chain-at_most_once_example =
    chain-at_most_once hooks do_limit context 5 0 0 (λ h. silent, (λ o. tt, tt))

chain_runs : build_hook_chain hooks do_limit context (5, 0) ≡ (ok 5, (6, 7))
unfolding build_hook_chain
chain_runs = refl

failing_raises : (build_hook_chain hooks failing context (5, 0)).0 ≡ raised store_unavailable
unfolding build_hook_chain
failing_raises = refl

chain-raised_example : (s : ℕ) × ((failing s).0 ≡ raised store_unavailable)
chain-raised_example = chain-raised hooks failing context (5, 0) failing_raises

relays-tried_example :
    let done = build_hook_chain {H = ℕ} (relays 3) (tried failing) context ((5, 0), 0) in
    (done.0 ≡ raised store_unavailable) × (done.1.0.1 ≡ 0 + 2 ^ 3)
relays-tried_example = relays-tried 3 failing context 5 0 0 (λ s. refl)

chain-observed_example :
    let done = build_hook_chain hooks do_limit context (5, 0) in (done.0 ≡ ok 5) × (done.1.0 ≡ 6)
chain-observed_example = chain-observed hooks do_limit context 5 0 refl (λ h r. refl, (λ r. tt, tt))

-- the exceptions of a transport
abbrev of_transport : Exc → Bool
of_transport (foreign n) = true
of_transport _ = false

abbrev broken : Action ℕ ℕ
broken s = (raised (foreign 3), s)

broken_raises : (wrap_method (some of_transport) broken 0).0 ≡ raised store_unavailable
unfolding wrap_method
broken_raises = refl

-- ===== src/Hooks/Errors.antt =====
-- Exceptions in a chain of hooks: which ones leave it, and how often a failing check is tried.
use throttled_py.Action.{Exc, Outcome, ok, raised, Action}
use throttled_py.Common.{ℕ, zero, suc, ◌+◌, ◌^◌, ◌≡◌, Option, none, some, List, [], ◌∷◌, arith}
use native.Mathlib.Nat.{add_assoc, pow-suc}
use throttled_py.Hooks.{
  HookContext, Script, returns, raises, calls, Hook, alone, track, run, settle, chain_fn,
  build_hook_chain,
}

module _ {S H R : Type 0} where
  settle_raised :
      (m : Action (S × H) R) (done : Outcome R × Option R × (S × H)) {e : Exc}
      → (settle m done).0 ≡ raised e
      → (m done.2).0 ≡ raised e
  unfolding settle
  settle_raised m (ok r, called, w) h = absurd (cc h)
  settle_raised m (raised x, some r, w) h = absurd (cc h)
  settle_raised m (raised x, none, w) h = h

  -- Whatever the hooks do, an exception that leaves the chain was raised by the check itself.
  pub chain-raised :
      (hooks : List (Hook H R)) (do_limit : Action S R) (context : HookContext) (w : S × H)
      {e : Exc}
      → (build_hook_chain hooks do_limit context w).0 ≡ raised e
      → (s : S) × ((do_limit s).0 ≡ raised e)
  unfolding build_hook_chain
  chain-raised [] do_limit context w h = (w.0, h)
  chain-raised (hook ∷ hooks) do_limit context w h =
      let rest = build_hook_chain hooks do_limit context in
      let done = run rest (hook context) none w in
      chain-raised hooks do_limit context done.2 (settle_raised rest done h)

-- A hook that does nothing but pass on what `call_next` returns or raises.
relay_end : {H R : Type 0} → Outcome R → Script H R
relay_end (ok r) = returns r
relay_end (raised e) = raises e

pub relay : {H R : Type 0} → Hook H R
unfolding relay_end
relay context = calls (λ o. relay_end o)

abbrev pub relays : {H R : Type 0} → ℕ → List (Hook H R)
relays zero = []
relays (suc k) = relay ∷ relays k

-- The check with a counter of all its executions.
pub tried : {S R : Type 0} → Action S R → Action (S × ℕ) R
tried do_limit (s, n) = let done = do_limit s in (done.0, (done.1, n + 1))

abbrev FailsAfter : {S H R : Type 0} → Exc → ℕ → Action ((S × ℕ) × H) R → Type 0
FailsAfter {S} {H} e k m =
    (s : S) (n : ℕ) (h : H) → (s' : S) × (h' : H) × (m ((s, n), h) ≡ (raised e, ((s', n + k), h')))

pow_double : (k : ℕ) → 2 ^ suc k ≡ 2 ^ k + 2 ^ k
pow_double k = simp pow-suc (omega arith)

module _ {S H R : Type 0} where
  relay_twice :
      (m : Action ((S × ℕ) × H) R) (context : HookContext) (e : Exc) (w w' w'' : (S × ℕ) × H)
      → m w ≡ (raised e, w')
      → m w' ≡ (raised e, w'')
      → settle m (run m (relay context) none w) ≡ (raised e, w'')
  unfolding settle run relay track
  relay_twice m context e w w' w'' p q = rw (p, run, settle) q

  relay-FailsAfter :
      (e : Exc) (k : ℕ) (m : Action ((S × ℕ) × H) R) (context : HookContext)
      → FailsAfter e k m
      → FailsAfter e (k + k) (chain_fn (relay context) m)
  unfolding chain_fn
  relay-FailsAfter e k m context f s n h =
      let (s', h', p) = f s n h in
      let (s'', h'', q) = f s' (n + k) h' in
      (
        s'',
        h'',
        rw (add_assoc n k k) at
            (relay_twice m context e ((s, n), h) ((s', n + k), h') ((s'', n + k + k), h'') p q),
      )

  relays-FailsAfter :
      (k : ℕ) (do_limit : Action S R) (context : HookContext) {e : Exc}
      → ((s : S) → (do_limit s).0 ≡ raised e)
      → FailsAfter {H = H} e (2 ^ k) (build_hook_chain (relays k) (tried do_limit) context)
  unfolding build_hook_chain
  relays-FailsAfter zero do_limit context f s n h =
      ((do_limit s).1, h, unfold alone tried in rw (f s))
  relays-FailsAfter (suc k) do_limit context {e} f s n h = rw (pow_double k) (
      relay-FailsAfter e (2 ^ k) (build_hook_chain (relays k) (tried do_limit) context) context
        (relays-FailsAfter k do_limit context f) s n h)

  -- A check that always raises is executed 2 ^ k times by a chain of k hooks that pass its exception
  -- on: each hook is skipped after it has called the rest of the chain, and calls it again.
  pub relays-tried :
      (k : ℕ) (do_limit : Action S R) (context : HookContext) (s : S) (n : ℕ) (h : H) {e : Exc}
      → ((s : S) → (do_limit s).0 ≡ raised e)
      → let done = build_hook_chain (relays k) (tried do_limit) context ((s, n), h) in
        (done.0 ≡ raised e) × (done.1.0.1 ≡ n + 2 ^ k)
  relays-tried k do_limit context s n h f =
      let (s', h', p) = relays-FailsAfter k do_limit context f s n h in (rw p, rw p)

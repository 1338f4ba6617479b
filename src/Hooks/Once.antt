-- ===== src/Hooks/Once.antt =====
-- How often a chain of hooks executes the check that it wraps.
use throttled_py.Action.{Outcome, ok, raised, Action}
use throttled_py.Common.{ℕ, ◌+◌, ◌≤◌, ◌≡◌, refl, Option, none, some, List, [], ◌∷◌, arith}
use throttled_py.Hooks.{
  HookContext, Script, returns, raises, calls, reads, writes, Hook, alone, track, run, settle,
  build_hook_chain,
}

-- A script that never calls `call_next`.
abbrev pub Silent : {H R : Type 0} → Script H R → Type 0
Silent (returns r) = Unit
Silent (raises e) = Unit
Silent (calls k) = ⊥
Silent {H} (reads k) = (h : H) → Silent (k h)
Silent (writes h k) = Silent k

-- A script that calls `call_next` at most once on every path.
abbrev pub CallsOnce : {H R : Type 0} → Script H R → Type 0
CallsOnce (returns r) = Unit
CallsOnce (raises e) = Unit
CallsOnce {R = R} (calls k) = (o : Outcome R) → Silent (k o)
CallsOnce {H} (reads k) = (h : H) → CallsOnce (k h)
CallsOnce (writes h k) = CallsOnce k

abbrev pub AllCallOnce : {H R : Type 0} → HookContext → List (Hook H R) → Type 0
AllCallOnce context [] = Unit
AllCallOnce context (hook ∷ hooks) = CallsOnce (hook context) × AllCallOnce context hooks

-- The check with a counter of its executions that returned a result.
pub count_one : {R : Type 0} → Outcome R → ℕ → ℕ
count_one (ok r) n = n + 1
count_one (raised e) n = n

pub counted : {S R : Type 0} → Action S R → Action (S × ℕ) R
unfolding count_one
counted do_limit (s, n) = let done = do_limit s in (done.0, (done.1, count_one done.0 n))

-- What a call may add to the counter: one if it returns, nothing if it raises.
abbrev pub Spent : {R : Type 0} → ℕ → Outcome R → ℕ → Type 0
Spent n (ok r) m = m ≤ n + 1
Spent n (raised e) m = m ≤ n

-- What the counter may show after a part of a hook, by what `tracked_next` has seen.
abbrev Tracked : {R : Type 0} → ℕ → Option R → ℕ → Type 0
Tracked n none m = m ≤ n
Tracked n (some r) m = m ≤ n + 1

-- An action that spends at most one, as `count` counts.
abbrev pub SpendsOnce : {S R : Type 0} → (S → ℕ) → Action S R → Type 0
SpendsOnce {S} count m = (s : S) → Spent (count s) (m s).0 (count (m s).1)

Tracked-call : {R : Type 0} (o : Outcome R) (n m : ℕ) → Spent n o m → Tracked n (track o none) m
unfolding track
Tracked-call (ok r) n m h = h
Tracked-call (raised e) n m h = h

Spent-mono : {R : Type 0} (o : Outcome R) (n n' m : ℕ) → n' ≤ n → Spent n' o m → Spent n o m
Spent-mono (ok r) n n' m le h = omega arith
Spent-mono (raised e) n n' m le h = omega arith

counts : {R : Type 0} (o : Outcome R) (n : ℕ) → Spent n o (count_one o n)
unfolding count_one
counts (ok r) n = omega arith
counts (raised e) n = omega arith

module _ {S H R : Type 0} where
  -- Without a call nothing is counted, and what was seen stays.
  run-Silent :
      (m : Action (S × H) R) (script : Script H R) (called : Option R) (w : S × H)
      → Silent script
      → let done = run m script called w in (done.1 ≡ called) × (done.2.0 ≡ w.0)
  unfolding run
  run-Silent m (returns r) called w h = (refl, refl)
  run-Silent m (raises e) called w h = (refl, refl)
  run-Silent m (calls k) called w h = elim h [ ]
  run-Silent m (reads k) called w h = run-Silent m (k w.1) called w (h w.1)
  run-Silent m (writes x k) called w h = run-Silent m k called (w.0, x) h

  module _ (count : S → ℕ) where
    abbrev Once : Action (S × H) R → Type 0
    Once m = SpendsOnce (λ (w : S × H). count w.0) m

    run-CallsOnce :
        (m : Action (S × H) R) (script : Script H R) (w : S × H)
        → Once m
        → CallsOnce script
        → let done = run m script none w in Tracked (count w.0) done.1 (count done.2.0)
    unfolding run
    run-CallsOnce m (returns r) w s h = omega arith
    run-CallsOnce m (raises e) w s h = omega arith
    run-CallsOnce m (calls k) w s h =
        let after = run-Silent m (k (m w).0) (track (m w).0 none) (m w).1 (h (m w).0) in
        rw (after.0, after.1) (Tracked-call (m w).0 (count w.0) (count (m w).1.0) (s w))
    run-CallsOnce m (reads k) w s h = run-CallsOnce m (k w.1) w s (h w.1)
    run-CallsOnce m (writes x k) w s h = run-CallsOnce m k (w.0, x) s h

    settle-Once :
        (m : Action (S × H) R) (n : ℕ) (done : Outcome R × Option R × (S × H))
        → Once m
        → Tracked n done.1 (count done.2.0)
        → let end = settle m done in Spent n end.0 (count end.1.0)
    unfolding settle
    settle-Once m n (ok r, none, w) s h = omega arith
    settle-Once m n (ok r, some x, w) s h = omega arith
    settle-Once m n (raised e, some x, w) s h = h
    settle-Once m n (raised e, none, w) s h =
        Spent-mono (m w).0 n (count w.0) (count (m w).1.0) h (s w)

    -- A chain of hooks that call `call_next` at most once each spends what its check does.
    pub chain-SpendsOnce :
        (hooks : List (Hook H R)) (do_limit : Action S R) (context : HookContext)
        → AllCallOnce context hooks
        → SpendsOnce count do_limit
        → Once (build_hook_chain hooks do_limit context)
    unfolding build_hook_chain
    chain-SpendsOnce [] do_limit context h s w = unfold alone in s w.0
    chain-SpendsOnce (hook ∷ hooks) do_limit context h s w =
        let rest = build_hook_chain hooks do_limit context in
        let once = chain-SpendsOnce hooks do_limit context h.1 s in
        settle-Once rest (count w.0) (run rest (hook context) none w) once
          (run-CallsOnce rest (hook context) w once h.0)

counted-SpendsOnce :
    {S R : Type 0} (do_limit : Action S R) → SpendsOnce (λ (s : S × ℕ). s.1) (counted do_limit)
unfolding counted
counted-SpendsOnce do_limit (s, n) = counts (do_limit s).0 n

-- Around hooks that call `call_next` at most once each, however they raise, the check is executed at
-- most once with a result, and if the chain raises, not even once.
pub chain-at_most_once :
    {S H R : Type 0} (hooks : List (Hook H R)) (do_limit : Action S R) (context : HookContext)
    (s : S) (n : ℕ) (h : H)
    → AllCallOnce context hooks
    → let done = build_hook_chain hooks (counted do_limit) context ((s, n), h) in
      Spent n done.0 done.1.0.1
chain-at_most_once {S} hooks do_limit context s n h once =
    chain-SpendsOnce (λ (w : S × ℕ). w.1) hooks (counted do_limit) context once
      (counted-SpendsOnce do_limit) ((s, n), h)

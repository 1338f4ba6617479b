-- ===== src/Hooks.antt =====
-- throttled/hooks.py: hooks that wrap a rate-limit check, and the chain that calls them. A hook is
-- code of the user: what it does is a tree of its own effects and of its calls of `call_next`, which
-- go on with what the call returned or raised. `H` is the state that hooks read and write, `S` the
-- one of the check, `R` its result.
pub mod Once
pub mod Errors
pub mod Observers
pub mod Keeps
use throttled_py.Action.{Exc, Outcome, ok, raised, Action}
use throttled_py.Common.{ℕ, Option, none, some, List, [], ◌∷◌}
use throttled_py.Common.Text.{Text}

pub record HookContext : Type 0 where
  pub key : Text
  pub cost : ℕ
  pub algorithm : Text
  pub store_type : Text

-- What a hook does.
pub data Script (H R : Type 0) : Type 0 where
  returns : R → Script H R
  raises : Exc → Script H R
  -- `call_next()`
  calls : (Outcome R → Script H R) → Script H R
  reads : (H → Script H R) → Script H R
  writes : H → Script H R → Script H R

-- `on_limit`, its `call_next` left open
abbrev pub Hook : Type 0 → Type 0 → Type 0
Hook H R = HookContext → Script H R

-- `tracked_next` after a call: `some` stands for `next_called`, with `next_result`.
unfoldable pub track : {R : Type 0} → Outcome R → Option R → Option R
track (ok r) called = some r
track (raised e) called = called

module _ {S H R : Type 0} where
  -- `do_limit`, beside which the hooks' state stays as it is
  unfoldable pub alone : Action S R → Action (S × H) R
  alone do_limit (s, h) = let done = do_limit s in (done.0, (done.1, h))

  -- A hook that runs: what `on_limit` returns or raises, what `tracked_next` has seen, and the states.
  unfoldable pub run :
      Action (S × H) R → Script H R → Option R → S × H → Outcome R × Option R × (S × H)
  unfolding track
  run next_fn (returns r) called w = (ok r, called, w)
  run next_fn (raises e) called w = (raised e, called, w)
  run next_fn (calls k) called w =
      run next_fn (k (next_fn w).0) (track (next_fn w).0 called) (next_fn w).1
  run next_fn (reads k) called w = run next_fn (k w.1) called w
  run next_fn (writes h k) called w = run next_fn k called (w.0, h)

  -- the `try` of `chain_fn`
  unfoldable pub settle : Action (S × H) R → Outcome R × Option R × (S × H) → Outcome R × (S × H)
  settle next_fn (ok r, called, w) = (ok r, w)
  settle next_fn (raised e, some r, w) = (ok r, w)
  settle next_fn (raised e, none, w) = next_fn w

  unfoldable pub chain_fn : Script H R → Action (S × H) R → Action (S × H) R
  unfolding run settle
  chain_fn script next_fn w = settle next_fn (run next_fn script none w)

  unfoldable pub build_hook_chain : List (Hook H R) → Action S R → HookContext → Action (S × H) R
  unfolding alone chain_fn
  build_hook_chain [] do_limit context = alone do_limit
  build_hook_chain (hook ∷ hooks) do_limit context =
      chain_fn (hook context) (build_hook_chain hooks do_limit context)

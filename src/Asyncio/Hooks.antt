-- ===== src/Asyncio/Hooks.antt =====
-- throttled/asyncio/hooks.py: hooks whose `on_limit` is a coroutine, and their chain. `except
-- Exception` does not catch a cancellation, which leaves `chain_fn` at once.
pub mod Twins
pub mod Cancelled
use throttled_py.Asyncio.Coro.{
  Ending, returned, failed, cancelled, Coro, done, does, awaits, and_then, on_value, ◌>>=◌, lift,
}
use throttled_py.Common.{Bool, Option, none, some, List, [], ◌∷◌}
use throttled_py.Hooks.{HookContext}

-- What a hook does. At a pause of its own the loop goes on with it, or cancels it.
pub data Script (H R : Type 0) : Type 0 where
  ends : Ending R → Script H R
  -- `await call_next()`
  calls : (Ending R → Script H R) → Script H R
  reads : (H → Script H R) → Script H R
  writes : H → Script H R → Script H R
  pauses : (Bool → Script H R) → Script H R

-- `on_limit`, its `call_next` left open
abbrev pub Hook : Type 0 → Type 0 → Type 0
Hook H R = HookContext → Script H R

-- `tracked_next` after a call: `some` stands for `next_called`, with `next_result`.
unfoldable pub track : {R : Type 0} → Ending R → Option R → Option R
track (returned r) called = some r
track (failed e) called = called
track cancelled called = called

module _ {S H R : Type 0} where
  -- A hook that runs: how `on_limit` ends, and what `tracked_next` has seen.
  unfoldable pub run : Coro (S × H) R → Script H R → Option R → Coro (S × H) (Ending R × Option R)
  unfolding and_then track
  run next_fn (ends e) called = done (returned (e, called))
  run next_fn (calls k) called = and_then next_fn (λ e. run next_fn (k e) (track e called))
  run next_fn (reads k) called = does (λ w. w) (λ w. run next_fn (k w.1) called)
  run next_fn (writes h k) called = does (λ w. (w.0, h)) (λ _. run next_fn k called)
  run next_fn (pauses k) called = awaits (λ b. run next_fn (k b) called)

  -- the `try` of `chain_fn`
  unfoldable pub settle : Coro (S × H) R → Ending R × Option R → Coro (S × H) R
  settle next_fn (returned r, called) = done (returned r)
  settle next_fn (failed e, some r) = done (returned r)
  settle next_fn (failed e, none) = next_fn
  settle next_fn (cancelled, called) = done cancelled

  unfoldable pub chain_fn : Script H R → Coro (S × H) R → Coro (S × H) R
  unfolding run settle
  chain_fn script next_fn = run next_fn script none >>= settle next_fn

  unfoldable pub build_hook_chain : List (Hook H R) → Coro S R → HookContext → Coro (S × H) R
  unfolding lift chain_fn
  build_hook_chain [] do_limit context = lift do_limit
  build_hook_chain (hook ∷ hooks) do_limit context =
      chain_fn (hook context) (build_hook_chain hooks do_limit context)

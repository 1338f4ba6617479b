-- ===== src/Hooks/Keeps.antt =====
-- What a check keeps, a chain of hooks around it keeps.
use throttled_py.Action.{Outcome, ok, raised, Action}
use throttled_py.Common.{Option, none, some, List, [], ◌∷◌}
use throttled_py.Hooks.{
  HookContext, Script, returns, raises, calls, reads, writes, Hook, alone, track, run, settle,
  chain_fn, build_hook_chain,
}

module _ {S H R : Type 0} (P : S → Type 0) where
  -- An action on the check's state and the hooks' state that keeps `P`.
  abbrev Keeps : Action (S × H) R → Type 0
  Keeps m = (w : S × H) → P w.0 → P (m w).1.0

  run-Keeps :
      (m : Action (S × H) R) (script : Script H R) (called : Option R) (w : S × H)
      → Keeps m
      → P w.0
      → P (run m script called w).2.0
  unfolding run
  run-Keeps m (returns r) called w k h = h
  run-Keeps m (raises e) called w k h = h
  run-Keeps m (calls f) called w k h =
      run-Keeps m (f (m w).0) (track (m w).0 called) (m w).1 k (k w h)
  run-Keeps m (reads f) called w k h = run-Keeps m (f w.1) called w k h
  run-Keeps m (writes x f) called w k h = run-Keeps m f called (w.0, x) k h

  settle-Keeps :
      (m : Action (S × H) R) (done : Outcome R × Option R × (S × H))
      → Keeps m
      → P done.2.0
      → P (settle m done).1.0
  unfolding settle
  settle-Keeps m (ok r, called, w) k h = h
  settle-Keeps m (raised e, some r, w) k h = h
  settle-Keeps m (raised e, none, w) k h = k w h

  -- Any chain of hooks keeps what the check keeps.
  pub chain-keeps :
      (hooks : List (Hook H R)) (do_limit : Action S R) (context : HookContext)
      → ((s : S) → P s → P (do_limit s).1)
      → (w : S × H) → P w.0
      → P (build_hook_chain hooks do_limit context w).1.0
  unfolding build_hook_chain
  chain-keeps [] do_limit context k w h = unfold alone in k w.0 h
  chain-keeps (hook ∷ hooks) do_limit context k w h =
      let rest = build_hook_chain hooks do_limit context in
      let kept = chain-keeps hooks do_limit context k in
      unfold chain_fn in
      settle-Keeps rest (run rest (hook context) none w) kept
        (run-Keeps rest (hook context) none w kept h)

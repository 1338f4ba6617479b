-- ===== src/Asyncio/Hooks/Cancelled.antt =====
-- A cancellation inside a chain of hooks.
use throttled_py.Asyncio.Coro.{Ending, returned, cancelled, Coro}
use throttled_py.Asyncio.Coro.Under.{under, under-and_then, under-lift}
use throttled_py.Asyncio.Hooks.{
  Script, ends, calls, reads, writes, pauses, Hook, track, run, settle, chain_fn, build_hook_chain,
}
use throttled_py.Common.{◌≡◌, refl, ◌∙◌, Bool, Option, none, List, [], ◌∷◌}
use throttled_py.Hooks.{HookContext}

-- A hook whose first suspension is its call of `call_next`, and which lets a cancellation there pass.
abbrev pub Passes : {H R : Type 0} → Script H R → Type 0
Passes (ends e) = ⊥
Passes (calls k) = k cancelled ≡ ends cancelled
Passes {H} (reads k) = (h : H) → Passes (k h)
Passes (writes h k) = Passes k
Passes (pauses k) = ⊥

abbrev pub AllPass : {H R : Type 0} → HookContext → List (Hook H R) → Type 0
AllPass context [] = Unit
AllPass context (hook ∷ hooks) = Passes (hook context) × AllPass context hooks

module _ {S H R : Type 0} (stops rest : List Bool) (s s' : S) where
  -- Cancelled, with the state `s'` beside the state of the hooks, and `rest` left to do.
  abbrev Leaves : Ending R × List Bool × (S × H) → Type 0
  Leaves r = (h : H) × (r ≡ (cancelled, rest, (s', h)))

  run-Leaves :
      (next_fn : Coro (S × H) R) (script : Script H R) (called : Option R) (h : H)
      → Passes script
      → ((h : H) → Leaves (under stops next_fn (s, h)))
      → (seen : Option R) × (h' : H) × (under stops (run next_fn script called) (s, h)
          ≡ (returned (cancelled, seen), rest, (s', h')))
  unfolding run under track
  run-Leaves next_fn (ends e) called h p stopped = elim p [ ]
  run-Leaves next_fn (calls k) called h p stopped =
      let (h', left) = stopped h in
      (called, h', under-and_then stops next_fn _ (s, h) ∙ rw (left, p) refl)
  run-Leaves next_fn (reads k) called h p stopped = run-Leaves next_fn (k h) called h (p h) stopped
  run-Leaves next_fn (writes h' k) called h p stopped = run-Leaves next_fn k called h' p stopped
  run-Leaves next_fn (pauses k) called h p stopped = elim p [ ]

  chain_fn-Leaves :
      (next_fn : Coro (S × H) R) (script : Script H R) (h : H)
      → Passes script
      → ((h : H) → Leaves (under stops next_fn (s, h)))
      → Leaves (under stops (chain_fn script next_fn) (s, h))
  unfolding chain_fn settle under
  chain_fn-Leaves next_fn script h p stopped =
      let (seen, h', left) = run-Leaves next_fn script none h p stopped in
      (h', under-and_then stops (run next_fn script none) _ (s, h) ∙ rw left refl)

  chain-Leaves :
      (hooks : List (Hook H R)) (do_limit : Coro S R) (context : HookContext) (h : H)
      → AllPass context hooks
      → under stops do_limit s ≡ (cancelled, rest, s')
      → Leaves (under stops (build_hook_chain hooks do_limit context) (s, h))
  unfolding build_hook_chain
  chain-Leaves [] do_limit context h p stopped =
      (h, under-lift stops do_limit s h ∙ rw stopped refl)
  chain-Leaves (hook ∷ hooks) do_limit context h p stopped =
      chain_fn-Leaves (build_hook_chain hooks do_limit context) (hook context) h p.0
        (λ h'. chain-Leaves hooks do_limit context h' p.1 stopped)

-- A cancellation inside the check, whose hooks call `call_next` before any suspension of their own and
-- let a cancellation of it pass, leaves the chain: the check is not executed again, its state and the
-- suspensions that follow are those of the check cancelled alone.
pub async_chain-cancelled :
    {S H R : Type 0} (hooks : List (Hook H R)) (do_limit : Coro S R) (context : HookContext)
    (stops rest : List Bool) (s s' : S) (h : H)
    → AllPass context hooks
    → under stops do_limit s ≡ (cancelled, rest, s')
    → (h' : H) × (under stops (build_hook_chain hooks do_limit context) (s, h)
        ≡ (cancelled, rest, (s', h')))
async_chain-cancelled hooks do_limit context stops rest s s' h p stopped =
    chain-Leaves stops rest s s' hooks do_limit context h p stopped

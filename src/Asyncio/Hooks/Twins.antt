-- ===== src/Asyncio/Hooks/Twins.antt =====
-- The chain of hooks of the two packages, on the hooks that can stand in both.
use throttled_py.Action.{Outcome, ok, raised, Action}
use throttled_py.Asyncio.Coro.{
  Ending, returned, failed, cancelled, Coro, ending, on_value, alone, alone-and_then, alone-lift,
}
use throttled_py.Asyncio.Hooks
use throttled_py.Asyncio.Hooks.{ends, track, run, settle, chain_fn, build_hook_chain}
use throttled_py.Common.{◌≡◌, refl, ap, ◌∙◌, Option, none, some, List, [], ◌∷◌}
use throttled_py.Asyncio.Coro.Twin.{Twin, result_of}
use throttled_py.Hooks.{
  HookContext, Script, returns, raises, calls, reads, writes, Hook, track as track_sync,
  run as run_sync, settle as settle_sync, chain_fn as chain_fn_sync, alone as alone_sync,
  build_hook_chain as build_sync,
}

-- A hook as a coroutine that is never suspended but in its calls of `call_next`; a cancellation there
-- it lets pass.
abbrev pub embed : {H R : Type 0} → Script H R → Hooks.Script H R
embed (returns r) = ends (returned r)
embed (raises e) = ends (failed e)
embed (calls k) = Hooks.calls (λ e. elim e [
  | returned r ↦ embed (k (ok r))
  | failed x ↦ embed (k (raised x))
  | cancelled ↦ ends cancelled
])
embed (reads k) = Hooks.reads (λ h. embed (k h))
embed (writes h k) = Hooks.writes h (embed k)

abbrev embed_after : {H R : Type 0} → (Outcome R → Script H R) → Ending R → Hooks.Script H R
embed_after k e = elim e [
  | returned r ↦ embed (k (ok r))
  | failed x ↦ embed (k (raised x))
  | cancelled ↦ ends cancelled
]

abbrev pub embed_all : {H R : Type 0} → List (Hook H R) → List (Hooks.Hook H R)
embed_all [] = []
embed_all (hook ∷ hooks) = (λ context. embed (hook context)) ∷ embed_all hooks

module _ {S H R : Type 0} where
  -- What a hook that runs leaves, as that of the other package.
  abbrev seen : Outcome R × Option R × (S × H) → Ending (Ending R × Option R) × (S × H)
  seen (o, called, w) = (returned (ending o, called), w)

  run-embed :
      (c : Coro (S × H) R) (m : Action (S × H) R)
      → Twin c m
      → (script : Script H R) (called : Option R) (w : S × H)
      → alone (run c (embed script) called) w ≡ seen (run_sync m script called w)
  unfolding run alone run_sync track track_sync
  run-embed c m t (returns r) called w = refl
  run-embed c m t (raises e) called w = refl
  run-embed c m t (calls k) called w =
      let next : Ending R → Coro (S × H) (Ending R × Option R) =
        λ e. run c (embed_after k e) (track e called) in
      let step : (o : Outcome R) (s : S × H)
          → alone (next (ending o)) s ≡ seen (run_sync m (k o) (track_sync o called) s) =
        λ o s.
          elim o
            as (λ x. alone (next (ending x)) s ≡ seen (run_sync m (k x) (track_sync x called) s)) [
              | ok a ↦ run-embed c m t (k (ok a)) (some a) s
              | raised e ↦ run-embed c m t (k (raised e)) called s
            ] in
      alone-and_then c next w ∙ ap (λ r. alone (next r.0) r.1) (t w) ∙ step (m w).0 (m w).1
  run-embed c m t (reads k) called w = run-embed c m t (k w.1) called w
  run-embed c m t (writes h k) called w = run-embed c m t k called (w.0, h)

  settle-Twin :
      (c : Coro (S × H) R) (m : Action (S × H) R) (o : Outcome R) (called : Option R) (w : S × H)
      → Twin c m
      → alone (settle c (ending o, called)) w ≡ result_of (settle_sync m (o, called, w))
  unfolding settle settle_sync alone
  settle-Twin c m (ok r) called w t = refl
  settle-Twin c m (raised e) (some r) w t = refl
  settle-Twin c m (raised e) none w t = t w

  chain_fn-Twin :
      (c : Coro (S × H) R) (m : Action (S × H) R) (script : Script H R)
      → Twin c m
      → Twin (chain_fn (embed script) c) (chain_fn_sync script m)
  unfolding chain_fn chain_fn_sync
  chain_fn-Twin c m script t w =
      let r = run_sync m script none w in
      alone-and_then (run c (embed script) none) (on_value (settle c)) w
      ∙ ap (λ s. alone (on_value (settle c) s.0) s.1) (run-embed c m t script none w)
      ∙ settle-Twin c m r.0 r.1 r.2 t

  pub chain-Twin :
      (hooks : List (Hook H R)) (c : Coro S R) (m : Action S R) (context : HookContext)
      → Twin c m
      → Twin (build_hook_chain (embed_all hooks) c context) (build_sync hooks m context)
  unfolding build_hook_chain build_sync alone_sync
  chain-Twin [] c m context t w = alone-lift c w.0 w.1 ∙ ap (λ r. (r.0, (r.1, w.1))) (t w.0)
  chain-Twin (hook ∷ hooks) c m context t w =
      chain_fn-Twin (build_hook_chain (embed_all hooks) c context) (build_sync hooks m context)
        (hook context) (chain-Twin hooks c m context t) w

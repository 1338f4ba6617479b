-- ===== src/Hooks/Observers.antt =====
-- Hooks that only observe a check, such as those that record metrics.
use throttled_py.Action.{ok, Action}
use throttled_py.Common.{◌≡◌, refl, sym, ap, ◌∙◌, none, some, List, [], ◌∷◌}
use throttled_py.Hooks.{
  HookContext, Script, returns, raises, calls, reads, writes, Hook, alone, track, run, settle,
  chain_fn, build_hook_chain,
}

-- The rest of a hook after its call returned `r`: its own effects, and then it returns `r`, or it
-- raises.
abbrev pub Closes : {H R : Type 0} → R → Script H R → Type 0
Closes r (returns x) = x ≡ r
Closes r (raises e) = Unit
Closes r (calls k) = ⊥
Closes {H} r (reads k) = (h : H) → Closes r (k h)
Closes r (writes h k) = Closes r k

-- A hook that calls `call_next` once and returns its result, unless it raises, at any place.
abbrev pub Observes : {H R : Type 0} → Script H R → Type 0
Observes (returns x) = ⊥
Observes (raises e) = Unit
Observes {R = R} (calls k) = (r : R) → Closes r (k (ok r))
Observes {H} (reads k) = (h : H) → Observes (k h)
Observes (writes h k) = Observes k

abbrev pub AllObserve : {H R : Type 0} → HookContext → List (Hook H R) → Type 0
AllObserve context [] = Unit
AllObserve context (hook ∷ hooks) = Observes (hook context) × AllObserve context hooks

-- From the state `s` the action returns `r` and leaves `s'`, whatever the hooks' state is.
abbrev Answers : {S H R : Type 0} → S → R → S → Action (S × H) R → Type 0
Answers {H = H} s r s' m = (h : H) → ((m (s, h)).0 ≡ ok r) × ((m (s, h)).1.0 ≡ s')

module _ {S H R : Type 0} where
  -- The rest of a hook, and what becomes of it.
  settle-Closes :
      (m : Action (S × H) R) (r : R) (script : Script H R) (w : S × H)
      → Closes r script
      → let done = settle m (run m script (some r) w) in (done.0 ≡ ok r) × (done.1.0 ≡ w.0)
  unfolding settle run
  settle-Closes m r (returns x) w c = (ap ok c, refl)
  settle-Closes m r (raises e) w c = (refl, refl)
  settle-Closes m r (calls k) w c = elim c [ ]
  settle-Closes m r (reads k) w c = settle-Closes m r (k w.1) w (c w.1)
  settle-Closes m r (writes h k) w c = settle-Closes m r k (w.0, h) c

  settle-Observes :
      (m : Action (S × H) R) (script : Script H R) (s : S) (h : H) {r : R} {s' : S}
      → Answers s r s' m
      → Observes script
      → let done = settle m (run m script none (s, h)) in (done.0 ≡ ok r) × (done.1.0 ≡ s')
  unfolding settle run track
  settle-Observes m (returns x) s h a o = elim o [ ]
  settle-Observes m (raises e) s h a o = a h
  settle-Observes m (calls k) s h {r} a o =
      let closed = settle-Closes m r (k (ok r)) (m (s, h)).1 (o r) in
      rw ((a h).0, run, settle) (closed.0, closed.1 ∙ (a h).1)
  settle-Observes m (reads k) s h a o = settle-Observes m (k h) s h a (o h)
  settle-Observes m (writes h' k) s h a o = settle-Observes m k s h' a o

  chain-Answers :
      (hooks : List (Hook H R)) (do_limit : Action S R) (context : HookContext) (s : S) {r : R}
      → (do_limit s).0 ≡ ok r
      → AllObserve context hooks
      → Answers s r (do_limit s).1 (build_hook_chain hooks do_limit context)
  unfolding build_hook_chain
  chain-Answers [] do_limit context s e o h = unfold alone in (e, refl)
  chain-Answers (hook ∷ hooks) do_limit context s e o h =
      unfold chain_fn in
      settle-Observes (build_hook_chain hooks do_limit context) (hook context) s h
        (chain-Answers hooks do_limit context s e o.1) o.0

  -- Around a check that returns, hooks that observe change neither its result nor the state that it
  -- leaves, wherever they raise.
  pub chain-observed :
      (hooks : List (Hook H R)) (do_limit : Action S R) (context : HookContext) (s : S) (h : H)
      {r : R}
      → (do_limit s).0 ≡ ok r
      → AllObserve context hooks
      → let done = build_hook_chain hooks do_limit context (s, h) in
        (done.0 ≡ (do_limit s).0) × (done.1.0 ≡ (do_limit s).1)
  chain-observed hooks do_limit context s h e o =
      let a = chain-Answers hooks do_limit context s e o h in (a.0 ∙ sym e, a.1)

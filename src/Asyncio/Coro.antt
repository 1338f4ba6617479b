-- ===== src/Asyncio/Coro.antt =====
-- Coroutines of asyncio, as trees: what a coroutine does to the shared state between two suspensions,
-- and where the event loop may run other tasks or cancel it.
pub mod Tasks
pub mod Count
pub mod Twin
pub mod Under
use throttled_py.Action.{Exc, Outcome, ok, raised, Action}
use throttled_py.Common.{ℕ, zero, suc, ◌≡◌, refl, Bool, true, false, List, [], ◌∷◌, if◌then◌else◌}

-- How a coroutine ends. `CancelledError` is no `Exception`, so that `except Exception` lets it pass.
pub data Ending (A : Type 0) : Type 0 where
  returned : A → Ending A
  failed : Exc → Ending A
  cancelled : Ending A

pub data Coro (S A : Type 0) : Type 0 where
  done : Ending A → Coro S A
  -- a change of the state, without suspension; what comes next depends on the state before it
  does : (S → S) → (S → Coro S A) → Coro S A
  -- a suspension: the loop goes on with the coroutine (`false`) or cancels it (`true`)
  awaits : (Bool → Coro S A) → Coro S A

abbrev pub ending : {A : Type 0} → Outcome A → Ending A
ending (ok a) = returned a
ending (raised e) = failed e

-- A function without `await`.
abbrev pub act : {S A : Type 0} → Action S A → Coro S A
act m = does (λ s. (m s).1) (λ s. done (ending (m s).0))

-- An `await` that may suspend, before the rest.
abbrev pub suspend : {S A : Type 0} → Coro S A → Coro S A
suspend c = awaits (λ stop. if stop then done cancelled else c)

-- The rest of a coroutine behind an `await`, whatever the awaited one ends with.
unfoldable pub and_then : {S A B : Type 0} → Coro S A → (Ending A → Coro S B) → Coro S B
and_then (done e) f = f e
and_then (does g k) f = does g (λ s. and_then (k s) f)
and_then (awaits k) f = awaits (λ b. and_then (k b) f)

-- Without a handler, an exception and a cancellation pass the rest by.
abbrev pub on_value : {S A B : Type 0} → (A → Coro S B) → Ending A → Coro S B
on_value f (returned a) = f a
on_value f (failed e) = done (failed e)
on_value f cancelled = done cancelled

infixl 5 ◌>>=◌ ◌>>◌
abbrev pub ◌>>=◌ : {S A B : Type 0} → Coro S A → (A → Coro S B) → Coro S B
c >>= f = and_then c (on_value f)

abbrev pub ◌>>◌ : {S A B : Type 0} → Coro S A → Coro S B → Coro S B
c >> d = and_then c (on_value (λ _. d))

-- The run of a coroutine that nothing interrupts.
unfoldable pub alone : {S A : Type 0} → Coro S A → S → Ending A × S
alone (done e) s = (e, s)
alone (does g k) s = alone (k s) (g s)
alone (awaits k) s = alone (k false) s

pub alone-and_then :
    {S A B : Type 0} (c : Coro S A) (f : Ending A → Coro S B) (s : S)
    → alone (and_then c f) s ≡ alone (f (alone c s).0) (alone c s).1
unfolding alone and_then
alone-and_then (done e) f s = refl
alone-and_then (does g k) f s = alone-and_then (k s) f (g s)
alone-and_then (awaits k) f s = alone-and_then (k false) f s

-- A coroutine on one part of the state.
unfoldable pub lift : {S H A : Type 0} → Coro S A → Coro (S × H) A
lift (done e) = done e
lift (does g k) = does (λ w. (g w.0, w.1)) (λ w. lift (k w.0))
lift (awaits k) = awaits (λ b. lift (k b))

pub alone-lift :
    {S H A : Type 0} (c : Coro S A) (s : S) (h : H)
    → alone (lift c) (s, h) ≡ ((alone c s).0, ((alone c s).1, h))
unfolding alone lift
alone-lift (done e) s h = refl
alone-lift (does g k) s h = alone-lift (k s) (g s) h
alone-lift (awaits k) s h = alone-lift (k false) s h

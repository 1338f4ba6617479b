-- ===== src/Asyncio/Coro/Tasks.antt =====
-- Tasks on one event loop: at each turn the loop resumes or cancels one of them, which then runs up to
-- its next suspension.
use throttled_py.Asyncio.Coro.{Coro, done, does, awaits, suspend}
use throttled_py.Common.{ℕ, zero, suc, Bool, List, [], ◌∷◌}

module _ {S A : Type 0} where
  -- A coroutine runs up to its next suspension, or to its end.
  unfoldable pub advance : Coro S A → S → Coro S A × S
  advance (done e) s = (done e, s)
  advance (does g k) s = advance (k s) (g s)
  advance (awaits k) s = (awaits k, s)

  -- A turn of a task that is suspended; one that has ended stays as it is.
  unfoldable pub turn : Bool → Coro S A → S → Coro S A × S
  unfolding advance
  turn stop (done e) s = (done e, s)
  turn stop (does g k) s = advance (does g k) s
  turn stop (awaits k) s = advance (k stop) s

  unfoldable pub resume : ℕ → Bool → List (Coro S A) → S → List (Coro S A) × S
  unfolding turn
  resume i stop [] s = ([], s)
  resume zero stop (t ∷ ts) s = let r = turn stop t s in (r.0 ∷ ts, r.1)
  resume (suc i) stop (t ∷ ts) s = let r = resume i stop ts s in (t ∷ r.0, r.1)

  -- A schedule names the task of each turn, and whether it is cancelled.
  unfoldable pub schedule : List (ℕ × Bool) → List (Coro S A) → S → List (Coro S A) × S
  unfolding resume
  schedule [] ts s = (ts, s)
  schedule ((i, stop) ∷ turns) ts s = let r = resume i stop ts s in schedule turns r.0 r.1

  -- New tasks, none of which has begun.
  abbrev pub tasks : List (Coro S A) → List (Coro S A)
  tasks [] = []
  tasks (c ∷ cs) = suspend c ∷ tasks cs

-- ===== src/Asyncio/Coro/Under.antt =====
-- A coroutine in a task that may be cancelled: its suspensions in their order take what the loop does.
use throttled_py.Asyncio.Coro.{Ending, Coro, done, does, awaits, and_then, lift}
use throttled_py.Asyncio.Coro.Count.{Pays}
use throttled_py.Common.{ℕ, ◌+◌, arith, ◌≡◌, refl, Bool, false, List, [], ◌∷◌}

-- How it ends, what the loop has left to do, and the state.
unfoldable pub under : {S A : Type 0} → List Bool → Coro S A → S → Ending A × List Bool × S
under stops (done e) s = (e, stops, s)
under stops (does g k) s = under stops (k s) (g s)
under [] (awaits k) s = under [] (k false) s
under (stop ∷ stops) (awaits k) s = under stops (k stop) s

pub under-and_then :
    {S A B : Type 0} (stops : List Bool) (c : Coro S A) (f : Ending A → Coro S B) (s : S)
    → let r = under stops c s in under stops (and_then c f) s ≡ under r.1 (f r.0) r.2
unfolding under and_then
under-and_then stops (done e) f s = refl
under-and_then stops (does g k) f s = under-and_then stops (k s) f (g s)
under-and_then [] (awaits k) f s = under-and_then [] (k false) f s
under-and_then (stop ∷ stops) (awaits k) f s = under-and_then stops (k stop) f s

pub under-lift :
    {S H A : Type 0} (stops : List Bool) (c : Coro S A) (s : S) (h : H)
    → let r = under stops c s in under stops (lift c) (s, h) ≡ (r.0, r.1, (r.2, h))
unfolding under lift
under-lift stops (done e) s h = refl
under-lift stops (does g k) s h = under-lift stops (k s) (g s) h
under-lift [] (awaits k) s h = under-lift [] (k false) s h
under-lift (stop ∷ stops) (awaits k) s h = under-lift stops (k stop) s h

-- However it is cancelled, a coroutine has counted what it pays for its ending.
pub under-Pays :
    {S A : Type 0} (count : S → ℕ) (paid : Ending A → ℕ) (d : ℕ) (stops : List Bool) (c : Coro S A)
    (s : S)
    → Pays count paid d c
    → let r = under stops c s in count r.2 + d ≡ count s + paid r.0
unfolding under
under-Pays count paid d stops (done e) s p = omega (arith, p)
under-Pays count paid d stops (does g k) s p =
    let (m, q, r) = p s in
    let rest = under-Pays count paid (m + d) stops (k s) (g s) r in omega (arith, q, rest)
under-Pays count paid d [] (awaits k) s p =
    let rest = under-Pays count paid 0 [] (k false) s (p.1 false) in omega (arith, p.0, rest)
under-Pays count paid d (stop ∷ stops) (awaits k) s p =
    let rest = under-Pays count paid 0 stops (k stop) s (p.1 stop) in omega (arith, p.0, rest)

-- ===== src/Asyncio/Coro/Count.antt =====
-- A count in the shared state that each task accounts for by how it ends.
use throttled_py.Action.{Exc}
use throttled_py.Asyncio.Coro.{
  Ending, returned, failed, cancelled, Coro, done, does, awaits, suspend, and_then, on_value, lift,
}
use throttled_py.Asyncio.Coro.Tasks.{advance, turn, resume, schedule}
use throttled_py.Common.{
  ℕ, zero, suc, ◌+◌, ◌≡◌, refl, sym, Bool, true, false, List, [], ◌∷◌, arith, if◌then◌else◌,
}

module _ {S : Type 0} (count : S → ℕ) where
  -- A coroutine that has counted `d` since its last suspension: before it is suspended it has counted
  -- nothing, and at its end it has counted what it pays for its ending.
  abbrev pub Pays : {A : Type 0} → (Ending A → ℕ) → ℕ → Coro S A → Type 0
  Pays paid d (done e) = d ≡ paid e
  Pays paid d (does g k) = (s : S) → (m : ℕ) × (count (g s) ≡ m + count s) × Pays paid (m + d) (k s)
  Pays paid d (awaits k) = (d ≡ 0) × ((b : Bool) → Pays paid 0 (k b))

  pub Pays-and_then :
      {A B : Type 0} (paid : Ending A → ℕ) (paid' : Ending B → ℕ) (d : ℕ) (c : Coro S A)
      (f : Ending A → Coro S B)
      → Pays paid d c
      → ((e : Ending A) → Pays paid' (paid e) (f e))
      → Pays paid' d (and_then c f)
  unfolding and_then
  Pays-and_then paid paid' d (done e) f p h = rw p (h e)
  Pays-and_then paid paid' d (does g k) f p h =
      λ s. let (m, q, r) = p s in (m, q, Pays-and_then paid paid' (m + d) (k s) f r h)
  Pays-and_then paid paid' d (awaits k) f p h =
      (p.0, λ b. Pays-and_then paid paid' 0 (k b) f (p.1 b) h)

  -- What comes after a value pays for it; an exception and a cancellation cost the same before it.
  pub on_value-Pays :
      {A B : Type 0} (price : Ending A → ℕ) (paid : Ending B → ℕ) (f : A → Coro S B)
      → ((x : Exc) → price (failed x) ≡ paid (failed x))
      → (price cancelled ≡ paid cancelled)
      → ((a : A) → Pays paid (price (returned a)) (f a))
      → (e : Ending A) → Pays paid (price e) (on_value f e)
  on_value-Pays price paid f fails cancels h (returned a) = h a
  on_value-Pays price paid f fails cancels h (failed x) = fails x
  on_value-Pays price paid f fails cancels h cancelled = cancels

  pub suspend-Pays :
      {A : Type 0} (paid : Ending A → ℕ) (c : Coro S A)
      → paid cancelled ≡ 0
      → Pays paid 0 c
      → Pays paid 0 (suspend c)
  suspend-Pays paid c free p = (
    refl,
    λ stop. elim stop as (λ b. Pays paid 0 (if b then done cancelled else c)) [
      | true ↦ sym free
      | false ↦ p
    ],
  )

  module _ {A : Type 0} (paid : Ending A → ℕ) where
    -- What a task has paid, once it has ended.
    abbrev pub settled : Coro S A → ℕ
    settled (done e) = paid e
    settled (does g k) = 0
    settled (awaits k) = 0

    -- A task between two turns.
    abbrev pub Rests : Coro S A → Type 0
    Rests (done e) = Unit
    Rests (does g k) = ⊥
    Rests (awaits k) = (b : Bool) → Pays paid 0 (k b)

    abbrev pub AllRest : List (Coro S A) → Type 0
    AllRest [] = Unit
    AllRest (t ∷ ts) = Rests t × AllRest ts

    abbrev pub total : List (Coro S A) → ℕ
    total [] = 0
    total (t ∷ ts) = settled t + total ts

    advance-Pays :
        (c : Coro S A) (s : S) (d : ℕ)
        → Pays paid d c
        → let r = advance c s in Rests r.0 × (count r.1 + d ≡ count s + settled r.0)
    unfolding advance
    advance-Pays (done e) s d p = (tt, omega (arith, p))
    advance-Pays (does g k) s d p =
        let (m, q, r) = p s in
        let (rests, e) = advance-Pays (k s) (g s) (m + d) r in (rests, omega (arith, q, e))
    advance-Pays (awaits k) s d p = (p.1, omega (arith, p.0))

    turn-Rests :
        (stop : Bool) (t : Coro S A) (s : S)
        → Rests t
        → let r = turn stop t s in Rests r.0 × (count r.1 + settled t ≡ count s + settled r.0)
    unfolding turn
    turn-Rests stop (done e) s h = (tt, refl)
    turn-Rests stop (does g k) s h = elim h [ ]
    turn-Rests stop (awaits k) s h = advance-Pays (k stop) s 0 (h stop)

    resume-Rests :
        (i : ℕ) (stop : Bool) (ts : List (Coro S A)) (s : S)
        → AllRest ts
        → let r = resume i stop ts s in AllRest r.0 × (count r.1 + total ts ≡ count s + total r.0)
    unfolding resume
    resume-Rests i stop [] s h = (tt, refl)
    resume-Rests zero stop (t ∷ ts) s h =
        let (rests, e) = turn-Rests stop t s h.0 in ((rests, h.1), omega (arith, e))
    resume-Rests (suc i) stop (t ∷ ts) s h =
        let (rest, e) = resume-Rests i stop ts s h.1 in ((h.0, rest), omega (arith, e))

    schedule-Rests :
        (turns : List (ℕ × Bool)) (ts : List (Coro S A)) (s : S)
        → AllRest ts
        → let r = schedule turns ts s in AllRest r.0 × (count r.1 + total ts ≡ count s + total r.0)
    unfolding schedule
    schedule-Rests [] ts s h = (h, refl)
    schedule-Rests ((i, stop) ∷ turns) ts s h =
        let step = resume i stop ts s in
        let (now, e) = resume-Rests i stop ts s h in
        let (end, e') = schedule-Rests turns step.0 step.1 now in (end, omega (arith, e, e'))

    -- Whatever the schedule, the count grows by what the tasks that have ended pay.
    pub schedule-counts :
        (turns : List (ℕ × Bool)) (ts : List (Coro S A)) (s : S)
        → AllRest ts
        → let r = schedule turns ts s in count r.1 + total ts ≡ count s + total r.0
    schedule-counts turns ts s h = (schedule-Rests turns ts s h).1

-- On the first part of the state, a coroutine pays what it pays alone.
pub lift-Pays :
    {S A : Type 0} (H : Type 0) (count : S → ℕ) (paid : Ending A → ℕ) (d : ℕ) (c : Coro S A)
    → Pays count paid d c
    → Pays {S = S × H} (λ w. count w.0) paid d (lift c)
unfolding lift
lift-Pays H count paid d (done e) p = p
lift-Pays H count paid d (does g k) p =
    λ w. let (m, q, r) = p w.0 in (m, q, lift-Pays H count paid (m + d) (k w.0) r)
lift-Pays H count paid d (awaits k) p = (p.0, λ b. lift-Pays H count paid 0 (k b) (p.1 b))

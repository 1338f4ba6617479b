-- ===== src/Asyncio/Coro/Twin.antt =====
-- Coroutines that, undisturbed, do what an action does.
use throttled_py.Action.{Outcome, ok, raised, Action, after}
use throttled_py.Asyncio.Coro.{Ending, Coro, ending, act, on_value, ◌>>=◌, alone, alone-and_then}
use throttled_py.Common.{◌≡◌, refl, ap, ◌∙◌}

abbrev pub result_of : {S A : Type 0} → Outcome A × S → Ending A × S
result_of (o, s) = (ending o, s)

abbrev pub Twin : {S A : Type 0} → Coro S A → Action S A → Type 0
Twin {S} c m = (s : S) → alone c s ≡ result_of (m s)

pub act-Twin : {S A : Type 0} (m : Action S A) → Twin (act m) m
unfolding alone
act-Twin m s = refl

module _ {S A B : Type 0} where
  after-Twin :
      (f : A → Coro S B) (g : A → Action S B) (done : Outcome A × S)
      → ((a : A) → Twin (f a) (g a))
      → alone (on_value f (ending done.0)) done.1 ≡ result_of (after g done)
  unfolding alone
  after-Twin f g (ok a, s) h = h a s
  after-Twin f g (raised e, s) h = refl

  pub and_then-Twin :
      (c : Coro S A) (m : Action S A) (f : A → Coro S B) (g : A → Action S B)
      → Twin c m
      → ((a : A) → Twin (f a) (g a))
      → Twin (c >>= f) (λ s. after g (m s))
  and_then-Twin c m f g t h s =
      alone-and_then c (on_value f) s
      ∙ ap (λ r. alone (on_value f r.0) r.1) (t s)
      ∙ after-Twin f g (m s) h

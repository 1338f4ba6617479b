-- ===== src/Store/Wrapped.antt =====
-- Wrapped methods, and the memory store behind its checks.
use throttled_py.Action.{Exc, store_unavailable, Outcome, ok, raised, Action}
use throttled_py.Common.{
  ◌≡◌, ◌⊎◌, inl, inr, refl, sym, Bool, true, false, Option, none, some, Bool-cases, if◌then◌else◌,
}
use throttled_py.Store.{unavailable, wrap_method, Method, wrap_class_method}

if_same : {A : Type 0} (b : Bool) (x : A) → (if b then x else x) ≡ x
if_same true x = refl
if_same false x = refl

module _ {S A : Type 0} where
  unavailable-raised :
      (p : Exc → Bool) (done : Outcome A × S) (e : Exc)
      → p store_unavailable ≡ false
      → (unavailable p done).0 ≡ raised e
      → (p e ≡ false) × ((e ≡ store_unavailable) ⊎ (done.0 ≡ raised e))
  unfolding unavailable
  unavailable-raised p (ok a, s) e own h = absurd (cc h)
  unavailable-raised p (raised x, s) e own h = elim (Bool-cases (p x)) [
    | inl base ↦
        let q = rw base at h in
        let same : store_unavailable ≡ e = cc in (rw (← same) own, inl (sym same))
    | inr other ↦
        let q = rw other at h in let same : x ≡ e = cc in (rw (← same) other, inr (rw same))
  ]

  -- Where `StoreUnavailableError` is none of the backend's base exceptions, an exception that leaves a
  -- wrapped method is none of them either: it is a `StoreUnavailableError`, or the method itself
  -- raised it.
  pub wrap_method-raised :
      (p : Exc → Bool) (method : Action S A) (s : S) (e : Exc)
      → p store_unavailable ≡ false
      → (wrap_method (some p) method s).0 ≡ raised e
      → (p e ≡ false) × ((e ≡ store_unavailable) ⊎ ((method s).0 ≡ raised e))
  unfolding wrap_method
  wrap_method-raised p method s e own h = unavailable-raised p (method s) e own h

  wrap_marked :
      (a : Bool) (m : Method S A) → m.marked ≡ true → wrap_class_method a (some m) ≡ some m
  unfolding wrap_class_method
  wrap_marked true m e = refl
  wrap_marked false m e = rw e

  -- The set-up of a class wraps its method only once: that of its subclasses, abstract or not, finds
  -- the method marked and leaves it.
  pub wrap_class_method-idempotent :
      (is_abstract : Bool) (m : Option (Method S A))
      → wrap_class_method is_abstract (wrap_class_method false m) ≡ wrap_class_method false m
  unfolding wrap_class_method
  wrap_class_method-idempotent a none = refl
  wrap_class_method-idempotent a (some m) = elim (Bool-cases m.marked) [
    | inl old ↦ simp old (if_same a (some m))
    | inr new ↦ simp new (wrap_marked a _ refl)
  ]

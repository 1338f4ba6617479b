-- ===== src/Action.antt =====
-- Methods that change an object and may raise (throttled/exceptions.py and the built-in exceptions
-- that the library lets through). What was written before a raise stays written.

use Prim.Native.Nat.{ℕ}
use mathlib.Core.Path.{◌≡◌, refl}

-- `LimitedError` carries the result of the check; what it shows is a text that no code reads.
pub data Exc : Type 0 where
  setup_error data_error store_unavailable limited_error : Exc
  key_error value_error type_error attribute_error index_error zero_division : Exc
  -- an exception of the user's code or of a package, by a number
  foreign : ℕ → Exc

pub data Outcome {ℓ} (A : Type ℓ) : Type ℓ where
  ok : A → Outcome A
  raised : Exc → Outcome A

-- The value goes on to the next function, an exception passes it by.
abbrev pub bind {ℓ} : {A B : Type ℓ} → Outcome A → (A → Outcome B) → Outcome B
bind (ok a) f = f a
bind (raised e) f = raised e

pub ok-injective {ℓ} : {A : Type ℓ} {a b : A} → ok a ≡ ok b → a ≡ b
ok-injective h = cc

pub bind-ok {ℓ} :
    {A B : Type ℓ} (m : Outcome A) (f : A → Outcome B) {b : B}
    → bind m f ≡ ok b
    → (a : A) × (m ≡ ok a) × (f a ≡ ok b)
bind-ok (ok a) f h = (a, refl, h)
bind-ok (raised e) f h = absurd (cc h)

abbrev pub Action {ℓ} : Type ℓ → Type ℓ → Type ℓ
Action S A = S → Outcome A × S

abbrev pub after {ℓ} : {S A B : Type ℓ} → (A → Action S B) → Outcome A × S → Outcome B × S
after f (ok a, s) = f a s
after f (raised e, s) = (raised e, s)

module _ {ℓ} {S A : Type ℓ} where
  abbrev pub pure : A → Action S A
  pure a s = (ok a, s)

  abbrev pub raise : Exc → Action S A
  raise e s = (raised e, s)

  abbrev pub gets : (S → A) → Action S A
  gets f s = (ok (f s), s)

module _ {ℓ} {S A B : Type ℓ} where
  infixl 5 ◌>>=◌ ◌>>◌
  abbrev pub ◌>>=◌ : Action S A → (A → Action S B) → Action S B
  ◌>>=◌ m f s = after f (m s)

  abbrev pub ◌>>◌ : Action S A → Action S B → Action S B
  ◌>>◌ m k s = after (λ _. k) (m s)

-- ===== src/Store.antt =====
-- throttled/store/base.py, throttled/store/wraps.py and class MemoryStore of throttled/store/memory.py:
-- the store as its users see it. A backend may raise exceptions of its transport; each wrapped method
-- turns those into one exception of the library.
pub mod Wrapped
use throttled_py.Action.{
  Exc, data_error, store_unavailable, Outcome, ok, raised, Action, raise, gets, ◌>>=◌, ◌>>◌,
}
use throttled_py.Common.{ℕ, Bool, true, false, Option, none, some, leb, if◌then◌else◌}
use throttled_py.Common.Float.{Float, Real, Num, int, float}
use throttled_py.Common.Int.{ℤ, pos, negsuc}
use throttled_py.Common.Text.{Text}
use throttled_py.Dict.{Dict}
use throttled_py.Memory
use throttled_py.Memory.{Backend, exists, ttl}

-- `base_exceptions`: `none` is the empty tuple, which the memory backend has; `some p` tells which
-- exceptions are instances of the classes listed.
abbrev pub BaseExceptions : Type 0
BaseExceptions = Option (Exc → Bool)

-- the `except` of a wrapped method, on what the method did
pub unavailable {ℓ} : {S A : Type ℓ} → (Exc → Bool) → Outcome A × S → Outcome A × S
unavailable p (ok a, s) = (ok a, s)
unavailable p (raised e, s) = if p e then (raised store_unavailable, s) else (raised e, s)

-- `_wrap_method`
unfoldable pub wrap_method {ℓ} : {S A : Type ℓ} → BaseExceptions → Action S A → Action S A
unfolding unavailable
wrap_method none method s = method s
wrap_method (some p) method s = unavailable p (method s)

-- A method as a class holds it: its code, and the attribute that marks a wrapper.
pub record Method {ℓ} (S A : Type ℓ) : Type ℓ where
  pub marked : Bool
  pub code : BaseExceptions → Action S A

-- `_wrap_class_method`, by whether the class is abstract; a class without the method stays as it is
unfoldable pub wrap_class_method {ℓ} :
    {S A : Type ℓ} → Bool → Option (Method S A) → Option (Method S A)
unfolding wrap_method
wrap_class_method is_abstract none = none
wrap_class_method is_abstract (some m) =
    if is_abstract
    then some m
    else if m.marked
    then some m
    else some (record { marked = true; code = λ base s. wrap_method base (m.code base) s })

module _ ⦃F : Float⦄ where
  -- `BaseStore`: the methods of a store over the state `S` of its backend. A `Real` is the reading of
  -- the clock that the method makes.
  pub record Store (S : Type 0) : Type 0 where
    pub exists : Text → Action S Bool
    pub ttl : Text → Real → Action S ℤ
    pub expire : Text → Num → Real → Action S (Unit {0})
    pub set : Text → Num → Num → Real → Action S (Unit {0})
    pub get : Text → Real → Action S (Option Num)
    pub hset : Text → Option Text → Option Num → Dict Num → Action S (Unit {0})
    pub hgetall : Text → Real → Action S (Dict Num)

  -- `_validate_timeout`: the timeout that it accepts
  unfoldable pub validate_timeout : Num → Outcome ℤ
  validate_timeout (int (pos n)) = if leb 1 n then ok (pos n) else raised data_error
  validate_timeout (int (negsuc n)) = raised data_error
  validate_timeout (float r) = raised data_error

  -- `MemoryStore`; its lock is held by each call as a whole
  unfoldable pub memory_store : Store Backend
  unfolding validate_timeout exists ttl Memory.expire Memory.set Memory.get Memory.hset
      Memory.hgetall
  memory_store = record {
    exists = λ key. gets (λ b. exists key b);
    ttl = λ key now. gets (λ b. ttl key now b);
    expire = λ key timeout now b.
        ((λ b'. (validate_timeout timeout, b')) >>= λ n. Memory.expire key n now) b;
    set = λ key value timeout now b.
        ((λ b'. (validate_timeout timeout, b')) >>= λ n. Memory.set key value n now) b;
    get = λ key now. Memory.get key now;
    hset = λ name key value mapping. Memory.hset name key value mapping;
    hgetall = λ name now. Memory.hgetall name now;
  }

  -- The methods named in `StoreSpec._WRAPPED_METHOD_NAMES`, wrapped.
  unfoldable pub wrap_store : {S : Type 0} → BaseExceptions → Store S → Store S
  unfolding wrap_method
  wrap_store base store = record {
    exists = λ key. wrap_method base (store.exists key);
    ttl = λ key now. wrap_method base (store.ttl key now);
    expire = λ key timeout now. wrap_method base (store.expire key timeout now);
    set = λ key value timeout now. wrap_method base (store.set key value timeout now);
    get = λ key now. wrap_method base (store.get key now);
    hset = λ name key value mapping. wrap_method base (store.hset name key value mapping);
    hgetall = λ name now. wrap_method base (store.hgetall name now);
  }

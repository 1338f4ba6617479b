-- ===== src/Memory/Calls.antt =====
-- Histories of calls of the memory store.
use throttled_py.Common.{List, [], ◌∷◌, Option}
use throttled_py.Common.Float.{Float, Real, Num}
use throttled_py.Common.Int.{ℤ}
use throttled_py.Common.Text.{Text}
use throttled_py.Dict.{Dict}
use throttled_py.Memory
use throttled_py.Memory.{Backend}
use throttled_py.Memory.Effects.{IsValid}
use throttled_py.Memory.Invariant.{
  get-IsValid, set-IsValid, expire-IsValid, hset-IsValid, hgetall-IsValid, delete-IsValid,
}

module _ ⦃F : Float⦄ where
  -- The methods that a client of the store can call, with the clock reading of each.
  pub data Call : Type 0 where
    get : Text → Real → Call
    set : Text → Num → ℤ → Real → Call
    expire : Text → ℤ → Real → Call
    hset : Text → Option Text → Option Num → Dict Num → Call
    hgetall : Text → Real → Call
    delete : Text → Call

  -- The backend after a call, also after one that raises.
  pub call : Call → Backend → Backend
  call (Call.get key now) b = (Memory.get key now b).1
  call (Call.set key value timeout now) b = (Memory.set key value timeout now b).1
  call (Call.expire key timeout now) b = (Memory.expire key timeout now b).1
  call (Call.hset name key value mapping) b = (Memory.hset name key value mapping b).1
  call (Call.hgetall name now) b = (Memory.hgetall name now b).1
  call (Call.delete key) b = (Memory.delete key b).1

  pub calls : List Call → Backend → Backend
  calls [] b = b
  calls (c ∷ cs) b = calls cs (call c b)

  call-IsValid : (c : Call) (b : Backend) → IsValid b → IsValid (call c b)
  unfolding call
  call-IsValid (Call.get key now) b h = get-IsValid key now b h
  call-IsValid (Call.set key value timeout now) b h = set-IsValid key value timeout now b h
  call-IsValid (Call.expire key timeout now) b h = expire-IsValid key timeout now b h
  call-IsValid (Call.hset name key value mapping) b h = hset-IsValid name key value mapping b h
  call-IsValid (Call.hgetall name now) b h = hgetall-IsValid name now b h
  call-IsValid (Call.delete key) b h = delete-IsValid key b h

  -- Whatever the calls, with raises and expiries among them, a valid backend stays valid: it never
  -- holds more keys than MAX_SIZE, no key stands in it twice, and no key has two expiries.
  pub calls-IsValid : (cs : List Call) (b : Backend) → IsValid b → IsValid (calls cs b)
  unfolding calls
  calls-IsValid [] b h = h
  calls-IsValid (c ∷ cs) b h = calls-IsValid cs (call c b) (call-IsValid c b h)

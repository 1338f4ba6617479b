-- ===== src/Asyncio/Store.antt =====
-- throttled/asyncio/store/memory.py: class MemoryStore. The lock of the backend is where a task may be
-- suspended; behind it a method runs without suspension.
use throttled_py.Action.{ok, Action}
use throttled_py.Asyncio.Coro.{Coro, done, ending, act, suspend, ◌>>=◌}
use throttled_py.Common.{Bool, Option}
use throttled_py.Common.Float.{Float, Real, Num}
use throttled_py.Common.Int.{ℤ}
use throttled_py.Common.Text.{Text}
use throttled_py.Dict.{Dict}
use throttled_py.Memory
use throttled_py.Memory.{Backend}
use throttled_py.Store.{validate_timeout}

-- `async with self._backend.lock:`
abbrev pub locked : {S A : Type 0} → Action S A → Coro S A
locked m = suspend (act m)

module _ ⦃F : Float⦄ where
  -- `BaseStore`: the methods of an asynchronous store, with the readings of the clock.
  pub record AsyncStore (S : Type 0) : Type 0 where
    pub exists : Text → Coro S Bool
    pub ttl : Text → Real → Coro S ℤ
    pub expire : Text → Num → Real → Coro S (Unit {0})
    pub set : Text → Num → Num → Real → Coro S (Unit {0})
    pub get : Text → Real → Coro S (Option Num)
    pub hset : Text → Option Text → Option Num → Dict Num → Coro S (Unit {0})
    pub hgetall : Text → Real → Coro S (Dict Num)

  abbrev validated : Num → Coro Backend ℤ
  validated timeout = done (ending (validate_timeout timeout))

  unfoldable pub async_memory_store : AsyncStore Backend
  unfolding validate_timeout Memory.exists Memory.ttl Memory.expire Memory.set Memory.get
      Memory.hset Memory.hgetall
  async_memory_store = record {
    exists = λ key. act (λ b. (ok (Memory.exists key b), b));
    ttl = λ key now. act (λ b. (ok (Memory.ttl key now b), b));
    expire = λ key timeout now. validated timeout >>= λ n. act (Memory.expire key n now);
    set = λ key value timeout now. validated timeout >>= λ n. locked (Memory.set key value n now);
    get = λ key now. locked (Memory.get key now);
    hset = λ name key value mapping. locked (Memory.hset name key value mapping);
    hgetall = λ name now. locked (Memory.hgetall name now);
  }

-- ===== src/Redis/Store.antt =====
-- throttled/store/redis.py, class RedisStore: the methods of the store on a client of the redis package,
-- which is a parameter, and throttled/utils.py: how the values that it returns are normalized.
use throttled_py.Action.{data_error, Action, pure, raise, raised, ◌>>=◌}
use throttled_py.Common.{
  Bool, true, false, not, ◌&&◌, ◌≡◌, refl, Option, none, some, List, [], ◌∷◌, if◌then◌else◌,
}
use throttled_py.Common.Float.{Float, Real, of_int, le, floor, Num, int, float}
use throttled_py.Common.Int.{ℤ, pos, leb_ℤ}
use throttled_py.Common.Text.{Text}
use throttled_py.Dict.{Dict}
use throttled_py.Store.{Store, validate_timeout}

module _ ⦃F : Float⦄ where
  -- The commands of a client over the state `S`, each of which may raise. A value is what `float` reads
  -- of the reply, a key of a hash is its text.
  pub record Client (S : Type 0) : Type 0 where
    pub exists : Text → Action S ℤ
    pub ttl : Text → Action S ℤ
    pub expire : Text → ℤ → Action S (Unit {0})
    pub set : Text → Num → ℤ → Action S (Unit {0})
    pub get : Text → Action S (Option Real)
    pub hset : Text → Option Text → Option Num → Dict Num → Action S (Unit {0})
    pub hgetall : Text → Action S (List (Text × Real))

  -- `format_value`, behind its `float`
  unfoldable pub format_value : Real → Num
  format_value value =
      let whole = of_int (floor value) in
      if le whole value && le value whole then int (floor value) else float value

  -- `format_kv`
  unfoldable pub format_kv : List (Text × Real) → Dict Num
  unfolding format_value
  format_kv [] = []
  format_kv ((k, v) ∷ kv) = (k, format_value v) ∷ format_kv kv

  abbrev format_found : Option Real → Option Num
  format_found none = none
  format_found (some value) = some (format_value value)

  -- `key is None and not mapping`
  abbrev lacks_pairs : Option Text → Dict Num → Bool
  lacks_pairs none [] = true
  lacks_pairs _ _ = false

  module _ {S : Type 0} where
    abbrev validated : Num → Action S ℤ
    validated timeout s = (validate_timeout timeout, s)

    unfoldable pub redis_store : Client S → Store S
    unfolding validate_timeout format_value format_kv
    redis_store client = record {
      exists = λ key. client.exists key >>= λ n. pure (not (leb_ℤ n (pos 0) && leb_ℤ (pos 0) n));
      ttl = λ key now. client.ttl key;
      expire = λ key timeout now. validated timeout >>= λ n. client.expire key n;
      set = λ key value timeout now. validated timeout >>= λ n. client.set key value n;
      get = λ key now. client.get key >>= λ value. pure (format_found value);
      hset = λ name key value mapping.
          if lacks_pairs key mapping then raise data_error else client.hset name key value mapping;
      hgetall = λ name now. client.hgetall name >>= λ kv. pure (format_kv kv);
    }

    -- A timeout that the validation refuses reaches no client.
    pub set-refused :
        (client : Client S) (key : Text) (value timeout : Num) (now : Real) (s : S)
        → validate_timeout timeout ≡ raised data_error
        → (redis_store client).set key value timeout now s ≡ (raised data_error, s)
    unfolding redis_store
    set-refused client key value timeout now s bad = rw bad refl

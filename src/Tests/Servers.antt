-- ===== src/Tests/Servers.antt =====
-- A Redis server and routes of FastAPI on concrete inputs.
use throttled_py.Action.{ok}
use throttled_py.Asyncio.Coro.{returned, done, does, suspend}
use throttled_py.Asyncio.Coro.Under.{under}
use throttled_py.Common.{
  ℕ, ◌+◌, ◌≡◌, refl, true, false, Option, none, some, List, [], ◌∷◌, arith, if◌then◌else◌,
}
use throttled_py.Common.Fixed.{fixed}
use throttled_py.Common.Float.{of_int, int, Real}
use throttled_py.Common.Int.{ℤ, pos, negsuc, leb_ℤ, ◌+ℤ◌, min_ℤ, max_ℤ}
use throttled_py.Common.Text.{Text, codes, str_eq, str_eq_refl}
use throttled_py.Common.Unicode.{ascii}
use throttled_py.FastApi.{Request, Route, plain, get_remote_address, wrapper}
use throttled_py.FastApi.Served.{Served, fastapi_wrapper-Served}
use throttled_py.Flask.Keys.{escaping}
use throttled_py.Flask.View.{Answer}
use throttled_py.Dict
use throttled_py.Dict.{lookup}
use throttled_py.Limiter.TokenBucket.{bucket_of, do_limit}
use throttled_py.Limiter.TokenBucket.Bucket.{IsBucket}
use throttled_py.Memory.{Backend, num, dict, has_expired}
use throttled_py.Registry.Builtin.{token_bucket, class_of}
use throttled_py.Throttled.{Throttled, World, Env}
use throttled_py.Limiter.SlidingWindow
use throttled_py.Memory
use throttled_py.Redis.{sliding_script, Server, token_script, bucket_ttl}
use throttled_py.Redis.Laws.{IsRedis}
use throttled_py.Redis.Agrees.{HasBucket, token_script-refines}
use throttled_py.Redis.Expired.{admitted, token_script-admits_all}

-- The hashes of a server, by their keys.
abbrev Hashes : Type 0
Hashes = Text → Option ℤ × Option ℤ

abbrev put : Text → Option ℤ × Option ℤ → Hashes → Hashes
put key value s other = if str_eq key other then value else s other

-- A server of hashes alone.
abbrev server : Server Hashes
server = record {
  get = λ key s. none;
  set_ex = λ key value timeout s. s;
  incrby = λ key cost s. (pos cost, s);
  hmget = λ key s. s key;
  hset = λ key tokens last s. put key (some tokens, some (pos last)) s;
  expire = λ key timeout s. if leb_ℤ timeout (pos 0) then put key (none, none) s else s;
}

server-IsRedis : IsRedis server
server-IsRedis = record {
  hmget-hset = λ key tokens last s. rw (str_eq_refl key) refl;
  hmget-expire =
      λ key timeout s h. let later : leb_ℤ timeout (pos 0) ≡ false = ground arith in rw later refl;
  hmget-expire_now = λ key timeout s h.
      let now : leb_ℤ timeout (pos 0) ≡ true = ground arith in rw now (rw (str_eq_refl key) refl);
}

abbrev key : Text
key = codes "k"

-- 100 requests per second with a capacity of 10: three requests for 10 at once
abbrev burst : List (ℕ × ℕ)
burst = (10, 5) ∷ (10, 5) ∷ (10, 5) ∷ []

token_script-admits_all_example :
    admitted server key (of_int (pos 100)) 10 burst (λ other. (none, none)) ≡ 10 + (10 + (10 + 0))
unfolding bucket_ttl ◌+ℤ◌ max_ℤ min_ℤ
token_script-admits_all_example =
    token_script-admits_all server key (of_int (pos 100)) 10 burst (λ other. (none, none))
      server-IsRedis refl (omega arith) (omega arith, (omega arith, (omega arith, tt))) refl

-- a bucket of 5 tokens at the time 3, on the server and in the memory store
abbrev hashes : Hashes
hashes = put key (some (pos 5), some (pos 3)) (λ other. (none, none))

abbrev backend : Backend
backend = record {
  max_size = 2;
  expire_info = (key, of_int (pos 20)) ∷ [];
  client = (key, dict (bucket_of (pos 5) 3)) ∷ [];
}

backend-IsBucket : IsBucket key (pos 5) 3 backend
unfolding lookup str_eq
backend-IsBucket = record {
  valid = record {
    positive = omega arith;
    bounded = omega arith;
    distinct = (refl, tt);
    distinct_expiry = (refl, tt);
  };
  bucket = refl;
}

abbrev at : ℕ → ℕ → Real
at n i = of_int (pos (n + i))

token_script-refines_example :
    let script = token_script server key (of_int (pos 1)) 10 7 4 hashes in
    let action = do_limit key (of_int (pos 1)) 10 7 4 (at 4) backend in
    (script.0 ≡ action.0)
    × ((tokens : ℤ) × (last : ℕ) × HasBucket server key tokens last script.1
        × IsBucket key tokens last action.1)
unfolding bucket_ttl str_eq has_expired lookup
token_script-refines_example =
    token_script-refines server key (of_int (pos 1)) 10 7 4 (at 4) (pos 5) 3 hashes backend
      server-IsRedis (omega arith) refl backend-IsBucket refl

abbrev throttled : Throttled ℕ
throttled = record {
  key = none;
  timeout = int (negsuc 0);
  quota = record {
    rate = record { period = 10_000_000; limit = 2 };
    burst = 2;
    period_sec = 10;
    emission_interval = of_int (pos 5);
    fill_rate = pos 200;
  };
  limiter_cls = class_of token_bucket;
  key_prefix = none;
  hooks = [];
  cost = 1;
}

abbrev world : World
world = record {
  limiter = none;
  backend = record { max_size = 2; expire_info = []; client = [] };
  answers = [];
  sleeps = [];
  unfinished = false;
}

abbrev env : Env
env = record {
  clock = record { now_sec = 1; now_ms = 1000; now_mono_f = at 1 };
  start_time = of_int (pos 1);
  rounds = [];
}

abbrev request : Request
request = record {
  method = codes "GET";
  root_path = none;
  path_format = codes "/items/{id}";
  client_host = some (codes "10.0.0.1");
  exception_handlers = [];
}

-- a route that counts its calls and is suspended
abbrev route : Route ℕ ℕ
route =
    does (λ ((w, h), slot). ((w, h + 1), slot)) (λ s. suspend (done (returned (Answer.returned 5))))

fastapi_wrapper-Served_example : Served 0 route (
    under
      (false ∷ true ∷ [])
      (wrapper
        (record { fields = throttled; hooks = [] })
        (λ r. ok (plain (get_remote_address r)))
        route
        (some request ∷ [])
        []
        env)
      ((world, 0), none))
fastapi_wrapper-Served_example =
    fastapi_wrapper-Served (record { fields = throttled; hooks = [] })
      (λ r. ok (plain (get_remote_address r))) route (some request ∷ []) [] env (false ∷ true ∷ [])
      ((world, 0), none) refl

-- The first request of a window is limited, for its cost is above the limit: the memory action has
-- counted it all the same, the script has not.
abbrev no_server : Server ℕ
no_server = record {
  get = λ key s. none;
  set_ex = λ key value timeout s. s + 1;
  incrby = λ key cost s. (pos cost, s + 1);
  hmget = λ key s. (none, none);
  hset = λ key tokens last s. s + 1;
  expire = λ key timeout s. s + 1;
}

denied_is_counted :
    let action = SlidingWindow.do_limit (codes "1") (codes "0") 10 2 3 1000 (at 1) world.backend in
    (action.0 ≡ ok (true, pos 3, of_int (pos 9)))
    × (action.1.client ≡ (codes "1", num (int (pos 3))) ∷ [])
unfolding SlidingWindow.do_limit lookup str_eq ◌+ℤ◌ Memory.get Memory.set Dict.contains
    Dict.move_to_end Dict.assign Dict.erase
denied_is_counted = (refl, refl)

denied_is_not_counted :
    sliding_script no_server (codes "1") (codes "0") 10 2 3 1000 0
    ≡ (ok (true, pos 3, of_int (pos 9)), 0)
unfolding sliding_script ◌+ℤ◌
denied_is_not_counted = refl

-- ===== src/Tests/Addresses.antt =====
-- The URLs of Redis servers on concrete inputs.
use throttled_py.Action.{Outcome, ok, raised, value_error}
use throttled_py.Common.{◌≡◌, refl, Option, none, some, [], ◌∷◌, arith}
use throttled_py.Common.Fixed.{fixed}
use throttled_py.Common.Int.{pos, negsuc, ◌-ℤ◌}
use throttled_py.Common.Text.{Text, codes}
use throttled_py.Common.Unicode.{ascii}
use throttled_py.Dict.{lookup, assign}
use throttled_py.Redis.Nodes.{int_of, parse_nodes}
use throttled_py.Redis.Nodes.RoundTrip.{Node, netloc_text, IsNetloc, parse_nodes-text}
use throttled_py.Redis.Options.{ParseResult, Options}
use throttled_py.Redis.Pools.{
  absent, Factory, Params, PoolClass, makes_anew, make_connection_params,
  get_or_create_connection_pool,
}
use throttled_py.Redis.Pools.Shared.{connects, pool-shared}

int_test_underscore : int_of (codes " -2_6 ") ≡ ok (negsuc 25)
unfolding int_of ◌-ℤ◌
int_test_underscore = refl

int_test_refused : int_of (codes "1__2") ≡ raised value_error
unfolding int_of
int_test_refused = refl

abbrev first_host : Node
first_host = (codes "a", some 26380)

abbrev second_host : Node
second_host = (codes "b", none)

abbrev login : Option Text
login = some (codes "u:p")

hosts-IsNetloc : IsNetloc login (first_host ∷ second_host ∷ [])
hosts-IsNetloc = (
  ((omega arith, tt), (((omega arith, tt), (omega arith, tt)), tt)),
  (omega arith, (omega arith, (omega arith, tt))),
)

parse_nodes-text_example :
    parse_nodes (pos 26379) (netloc_text login first_host (second_host ∷ []))
    ≡ ok ((codes "a", pos 26380) ∷ (codes "b", pos 26379) ∷ [])
parse_nodes-text_example =
    parse_nodes-text (pos 26379) login first_host (second_host ∷ []) hosts-IsNetloc

abbrev url : Text
url = codes "redis+sentinel://u:p@a:26380,b/main"

abbrev parts : ParseResult
parts = record {
  netloc = netloc_text login first_host (second_host ∷ []);
  path = codes "/main";
  username = some (codes "u");
  password = some (codes "p");
}

abbrev urlparse : Text → Outcome ParseResult
urlparse server = ok parts

abbrev options : Options
options = record {
  texts = [];
  reuse_connection = none;
  sentinel_kwargs = some ((codes "username", codes "other") ∷ []);
  sentinels = none;
  cluster_nodes = none;
}

-- A pool is the password that it connects with.
abbrev passwords : PoolClass (Option Text)
passwords = record {
  from_url = λ params kwargs. ok none;
  password_of = λ pool. pool;
  reset_with = λ password pool. password;
}

abbrev factory_of : Text → Factory
factory_of password = record {
  redis_client_cls_path = codes "redis.Redis";
  pool_cls_kwargs = [];
  password = some password;
  socket_timeout = absent;
  socket_connect_timeout = absent;
  reuse = none;
}

abbrev params_of : Text → Params
params_of password = record {
  url = codes "redis://a/0";
  password = some password;
  socket_timeout = none;
  socket_connect_timeout = none;
}

made_params :
    make_connection_params (factory_of (codes "p")) (some (codes "redis://a/0"))
    ≡ ok (params_of (codes "p"))
unfolding make_connection_params
made_params = refl

abbrev key : Text
key = codes "redis.Redis:redis://a/0"

-- A factory with another password gets the pool of the first.
pool-shared_example :
    get_or_create_connection_pool passwords
      (factory_of (codes "q"))
      (params_of (codes "q"))
      (connects passwords [] ((key, some (codes "p")) ∷ []))
    ≡ (ok (some (codes "p")), connects passwords [] ((key, some (codes "p")) ∷ []))
unfolding get_or_create_connection_pool makes_anew lookup assign
pool-shared_example =
    pool-shared passwords (factory_of (codes "p")) (factory_of (codes "q")) (params_of (codes "p"))
      (params_of (codes "q")) [] ((key, some (codes "p")) ∷ []) (some (codes "p")) [] refl tt refl
      refl

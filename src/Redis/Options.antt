-- ===== src/Redis/Options.antt =====
-- throttled/store/redis.py and throttled/asyncio/store/redis.py: the options of a Redis store, which a
-- backend completes from the URL of its server. `urlparse` is a parameter.
pub mod Sentinel
use throttled_py.Action.{Outcome, ok, bind}
use throttled_py.Common.{
  Bool, true, false, Option, none, some, List, [], ◌∷◌, ◌++◌, ◌==◌, ◌&&◌, if◌then◌else◌, ℕ,
}
use throttled_py.Common.Int.{ℤ, pos}
use throttled_py.Common.Text.{Text, codes}
use throttled_py.Common.Unicode.{Unicode}
use throttled_py.Dict.{Dict, assign, contains, update}
use throttled_py.Redis.Nodes.{parse_nodes}

-- What `urlparse` returns, as far as it is read.
pub record ParseResult : Type 0 where
  pub netloc : Text
  pub path : Text
  pub username : Option Text
  pub password : Option Text

-- The options by their keys: those that are texts are in a dict of their own.
pub record Options : Type 0 where
  pub texts : Dict Text
  pub reuse_connection : Option Bool
  pub sentinel_kwargs : Option (Dict Text)
  pub sentinels : Option (List (Text × ℤ))
  pub cluster_nodes : Option (List (Text × ℤ))

-- `options.setdefault(key, value)`
unfoldable pub setdefault : Text → Text → Options → Options
setdefault key value o = record o {
  texts = if contains key o.texts then o.texts else assign key value o.texts;
}

-- the hooks of a backend, that its subclasses override
pub record OptionSetters : Type 0 where
  pub set_options : Options → Options
  pub set_sentinel_options : Options → Options
  pub set_cluster_options : Options → Options
  pub set_standalone_options : Options → Options

-- `BaseRedisStoreBackend._set_sentinel_options`
unfoldable pub set_sentinel_options : Options → Options
unfolding setdefault
set_sentinel_options o =
    setdefault (codes "CONNECTION_FACTORY_CLASS")
      (codes "throttled.store.SentinelConnectionFactory") o

-- `BaseRedisStoreBackend._set_cluster_options`
unfoldable pub set_cluster_options : Options → Options
unfolding setdefault
set_cluster_options o =
    setdefault (codes "CONNECTION_FACTORY_CLASS") (codes "throttled.store.ClusterConnectionFactory")
      o

-- `RedisStoreBackend`
abbrev pub sync_backend : OptionSetters
sync_backend = record {
  set_options = λ o. o;
  set_sentinel_options = λ o. set_sentinel_options o;
  set_cluster_options = λ o. set_cluster_options o;
  set_standalone_options = λ o. o;
}

reuse_or : Option Bool → Bool
reuse_or none = false
reuse_or (some reuse) = reuse

-- `options.setdefault("REUSE_CONNECTION", False)`
unfoldable pub reuse_default : Options → Options
unfolding reuse_or
reuse_default o = record o { reuse_connection = some (reuse_or o.reuse_connection) }

-- `RedisStoreBackend._set_options` of asyncio
unfoldable pub async_options : Options → Options
unfolding setdefault reuse_default
async_options o =
    setdefault (codes "PARSER_CLASS") (codes "redis.asyncio.connection.DefaultParser")
      (setdefault (codes "REDIS_CLIENT_CLASS") (codes "redis.asyncio.Redis") (reuse_default o))

-- `RedisStoreBackend._set_sentinel_options` of asyncio
unfoldable pub async_sentinel_options : Options → Options
unfolding setdefault set_sentinel_options
async_sentinel_options o =
    setdefault (codes "CONNECTION_POOL_CLASS") (codes "redis.asyncio.SentinelConnectionPool") (
      setdefault (codes "SENTINEL_CLASS") (codes "redis.asyncio.Sentinel") (set_sentinel_options o))

-- `RedisStoreBackend._set_cluster_options` of asyncio
unfoldable pub async_cluster_options : Options → Options
unfolding setdefault set_cluster_options
async_cluster_options o =
    setdefault (codes "REDIS_CLUSTER_NODE_CLASS") (codes "redis.asyncio.cluster.ClusterNode") (
      setdefault (codes "REDIS_CLIENT_CLASS") (codes "redis.asyncio.cluster.RedisCluster")
        (set_cluster_options o))

-- `RedisStoreBackend` of asyncio
abbrev pub async_backend : OptionSetters
async_backend = record {
  set_options = λ o. async_options o;
  set_sentinel_options = λ o. async_sentinel_options o;
  set_cluster_options = λ o. async_cluster_options o;
  set_standalone_options =
      λ o. setdefault (codes "CONNECTION_POOL_CLASS") (codes "redis.asyncio.ConnectionPool") o;
}

abbrev credential : Text → Option Text → Dict Text → Dict Text
credential key (some (c ∷ value)) auth_info = assign key (c ∷ value) auth_info
credential key _ auth_info = auth_info

-- `_parse_auth`, with the keys of its dict in upper case on demand
unfoldable pub parse_auth : Text → Text → ParseResult → Dict Text
unfolding assign
parse_auth username password parsed =
    credential password parsed.password (credential username parsed.username [])

abbrev pub auth_info : ParseResult → Dict Text
auth_info parsed = parse_auth (codes "username") (codes "password") parsed

-- `{k.upper(): v for k, v in auth.items()}`
abbrev pub upper_auth : ParseResult → Dict Text
upper_auth parsed = parse_auth (codes "USERNAME") (codes "PASSWORD") parsed

abbrev pub given {ℓ} : {A : Type ℓ} → Option (List A) → List A
given none = []
given (some xs) = xs

-- the options of a server behind sentinels, before the hooks
unfoldable pub with_sentinels : ParseResult → List (Text × ℤ) → Options → Options
unfolding update parse_auth
with_sentinels parsed nodes o = record o {
  sentinel_kwargs = some (update (auth_info parsed) (given o.sentinel_kwargs));
  texts = update o.texts (upper_auth parsed);
  sentinels = some (given o.sentinels ++ nodes);
}

-- the options of a cluster, before the hooks
unfoldable pub with_cluster : ParseResult → List (Text × ℤ) → Options → Options
unfolding update parse_auth
with_cluster parsed nodes o = record o {
  texts = update o.texts (upper_auth parsed);
  cluster_nodes = some (given o.cluster_nodes ++ nodes);
}

-- `path.lstrip("/")`
unfoldable pub lstrip_slash : Text → Text
lstrip_slash [] = []
lstrip_slash (c ∷ t) = if c == b'/' then lstrip_slash t else c ∷ t

-- `parsed.path.lstrip("/") if parsed.path else "mymaster"`
unfoldable pub service_name : Text → Text
unfolding lstrip_slash
service_name [] = codes "mymaster"
service_name (c ∷ path) = lstrip_slash (c ∷ path)

-- `text.startswith(prefix)`
unfoldable pub has_prefix : Text → Text → Bool
has_prefix [] t = true
has_prefix (p ∷ ps) [] = false
has_prefix (p ∷ ps) (c ∷ t) = c == p && has_prefix ps t

module _ ⦃U : Unicode⦄ (urlparse : Text → Outcome ParseResult) where
  unfoldable pub parse_sentinel : OptionSetters → Text → Options → Outcome (Option Text × Options)
  unfolding parse_nodes with_sentinels service_name
  parse_sentinel cls server o = bind (urlparse server) λ parsed.
      bind (parse_nodes (pos 26_379) parsed.netloc) λ nodes. ok (
        some (codes "redis://" ++ service_name parsed.path ++ codes "/0"),
        cls.set_options (cls.set_sentinel_options (with_sentinels parsed nodes o)),
      )

  unfoldable pub parse_cluster : OptionSetters → Text → Options → Outcome (Option Text × Options)
  unfolding parse_nodes with_cluster
  parse_cluster cls server o = bind (urlparse server) λ parsed.
      bind (parse_nodes (pos 6_379) parsed.netloc) λ nodes.
        ok (some server, cls.set_options (cls.set_cluster_options (with_cluster parsed nodes o)))

  unfoldable pub parse_server : OptionSetters → Text → Options → Outcome (Option Text × Options)
  unfolding has_prefix parse_sentinel parse_cluster
  parse_server cls server o =
      if has_prefix (codes "redis+sentinel://") server
      then parse_sentinel cls server o
      else if has_prefix (codes "redis+cluster://") server
      then parse_cluster cls server o
      else ok (some server, cls.set_options (cls.set_standalone_options o))

  -- `_parse`
  unfoldable pub parse : OptionSetters → Option Text → Options → Outcome (Option Text × Options)
  unfolding parse_server
  parse cls (some (c ∷ server)) o = parse_server cls (c ∷ server) o
  parse cls server o = ok (server, cls.set_standalone_options (cls.set_options o))

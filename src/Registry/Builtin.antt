-- ===== src/Registry/Builtin.antt =====
-- throttled/constants.py and the class bodies of throttled/rate_limiter: the built-in limiter types,
-- and the attributes of their classes.
use throttled_py.Common.{List, [], ◌∷◌, some}
use throttled_py.Common.Float.{Float}
use throttled_py.Common.Text.{Text, codes}
use throttled_py.Limiter.FixedWindow
use throttled_py.Limiter.Gcra
use throttled_py.Limiter.LeakingBucket
use throttled_py.Limiter.Runs.{Limit}
use throttled_py.Limiter.SlidingWindow
use throttled_py.Limiter.TokenBucket
use throttled_py.Memory.{Backend}
use throttled_py.Quota.{RateLimiter, RateLimitState, Clock}
use throttled_py.Action.{Action}
use throttled_py.Registry.{ActionClass, LimiterClass}

pub data RateLimiterType : Type 0 where
  fixed_window sliding_window leaking_bucket token_bucket gcra : RateLimiterType

-- the values of the enumeration
unfoldable pub value : RateLimiterType → Text
value fixed_window = codes "fixed_window"
value sliding_window = codes "sliding_window"
value leaking_bucket = codes "leaking_bucket"
value token_bucket = codes "token_bucket"
value gcra = codes "gcra"

-- StoreType.REDIS, StoreType.MEMORY, ATOMIC_ACTION_TYPE_LIMIT and ATOMIC_ACTION_TYPE_PEEK
abbrev pub redis_store : Text
redis_store = codes "redis"

abbrev pub memory_store : Text
memory_store = codes "memory"

abbrev pub limit_type : Text
limit_type = codes "limit"

abbrev pub peek_type : Text
peek_type = codes "peek"

-- `_supported_atomic_action_types` of the classes
unfoldable pub supported_of : RateLimiterType → List Text
supported_of gcra = limit_type ∷ peek_type ∷ []
supported_of _ = limit_type ∷ []

abbrev action : Text → Text → ActionClass
action type store_type = record { type = type; store_type = store_type }

-- `_DEFAULT_ATOMIC_ACTION_CLASSES` of the classes
unfoldable pub actions_of : RateLimiterType → List ActionClass
actions_of gcra =
    action peek_type redis_store
    ∷ action limit_type redis_store
    ∷ action limit_type memory_store
    ∷ action peek_type memory_store
    ∷ []
actions_of _ = action limit_type redis_store ∷ action limit_type memory_store ∷ []

module _ ⦃F : Float⦄ where
  -- `_limit` and `_peek` of the classes, on the memory store
  unfoldable pub limit_of : RateLimiterType → RateLimiter → Limit
  limit_of fixed_window = FixedWindow.limit
  limit_of sliding_window = SlidingWindow.limit
  limit_of leaking_bucket = LeakingBucket.limit
  limit_of token_bucket = TokenBucket.limit
  limit_of gcra = Gcra.limit

  unfoldable pub peek_of :
      RateLimiterType → RateLimiter → Text → Clock → Action Backend RateLimitState
  peek_of fixed_window = FixedWindow.peek
  peek_of sliding_window = SlidingWindow.peek
  peek_of leaking_bucket = LeakingBucket.peek
  peek_of token_bucket = TokenBucket.peek
  peek_of gcra = Gcra.peek

  unfoldable pub class_of : RateLimiterType → LimiterClass
  unfolding value supported_of actions_of limit_of peek_of
  class_of t = record {
    type = some (value t);
    key_prefix = codes "throttled:v1:";
    key_schema_version = codes "v1";
    supported_types = supported_of t;
    default_actions = actions_of t;
    limit = limit_of t;
    peek = peek_of t;
  }

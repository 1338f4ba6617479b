-- ===== src/Redis/Pools.antt =====
-- throttled/store/redis_pool.py, class ConnectionFactory: the parameters of a connection, and the pools
-- that all factories of the process share. The class of the pools is a parameter.
pub mod Shared
use throttled_py.Action.{Outcome, ok, raised, setup_error, bind}
use throttled_py.Common.{
  Bool, true, false, not, ◌||◌, Option, none, some, [], ◌∷◌, ◌++◌, if◌then◌else◌,
}
use throttled_py.Common.Float.{Float, Num}
use throttled_py.Common.Text.{Text, codes}
use throttled_py.Dict.{Dict, assign, lookup, contains}

module _ ⦃F : Float⦄ where
  -- A timeout in the options: a false value, as zero is, another number, or a true value that is none.
  pub data SocketOption : Type 0 where
    absent : SocketOption
    number : Num → SocketOption
    other : SocketOption

  -- The fields of a factory that its methods read; `reuse` is the option `REUSE_CONNECTION`.
  pub record Factory : Type 0 where
    pub redis_client_cls_path : Text
    pub pool_cls_kwargs : Dict Text
    pub password : Option Text
    pub socket_timeout : SocketOption
    pub socket_connect_timeout : SocketOption
    pub reuse : Option Bool

  -- the parameters of a connection
  pub record Params : Type 0 where
    pub url : Text
    pub password : Option Text
    pub socket_timeout : Option Num
    pub socket_connect_timeout : Option Num

  -- `url or self.DEFAULT_URL`
  unfoldable pub url_or : Option Text → Text
  url_or (some (c ∷ url)) = c ∷ url
  url_or _ = codes "redis://localhost:6379/0"

  -- a password that is not empty
  unfoldable pub true_text : Option Text → Option Text
  true_text (some (c ∷ t)) = some (c ∷ t)
  true_text _ = none

  unfoldable pub timeout_of : SocketOption → Outcome (Option Num)
  timeout_of absent = ok none
  timeout_of (number n) = ok (some n)
  timeout_of other = raised setup_error

  unfoldable pub make_connection_params : Factory → Option Text → Outcome Params
  unfolding url_or true_text timeout_of
  make_connection_params f url = bind (timeout_of f.socket_timeout) λ timeout.
      bind (timeout_of f.socket_connect_timeout) λ connect_timeout. ok (record {
        url = url_or url;
        password = true_text f.password;
        socket_timeout = timeout;
        socket_connect_timeout = connect_timeout;
      })

  -- `_get_pool_key`
  unfoldable pub get_pool_key : Factory → Params → Text
  get_pool_key f params = f.redis_client_cls_path ++ codes ":" ++ params.url

  -- `not self.options.get("REUSE_CONNECTION", True)`
  unfoldable pub makes_anew : Factory → Bool
  makes_anew f = elim f.reuse [ none ↦ false | some reuse ↦ not reuse ]

  -- A class of pools: `from_url` with the parameters and the further arguments, the password that a
  -- pool connects with, and the reset of a pool with another.
  pub record PoolClass (P : Type 0) : Type 0 where
    pub from_url : Params → Dict Text → Outcome P
    pub password_of : P → Option Text
    pub reset_with : Option Text → P → P

  module _ {P : Type 0} where
    unfoldable pub with_password : PoolClass P → Params → P → P
    with_password cls params pool = elim (cls.password_of pool) [
      | none ↦ cls.reset_with params.password pool
      | some password ↦ pool
    ]

    unfoldable pub get_connection_pool : PoolClass P → Factory → Params → Outcome P
    unfolding with_password
    get_connection_pool cls f params =
        bind (cls.from_url params f.pool_cls_kwargs) λ pool. ok (with_password cls params pool)

    -- The pool of a key and the pools that are there afterwards; `_pools` keeps its entries where the
    -- creation raises.
    unfoldable pub stored : Text → Outcome P → Dict P → Outcome P × Dict P
    stored key (ok pool) pools = (ok pool, assign key pool pools)
    stored key (raised e) pools = (raised e, pools)

    unfoldable pub get_or_create_connection_pool :
        PoolClass P → Factory → Params → Dict P → Outcome P × Dict P
    unfolding get_pool_key get_connection_pool makes_anew stored
    get_or_create_connection_pool cls f params pools =
        let key = get_pool_key f params in
        let made = stored key (get_connection_pool cls f params) pools in
        if makes_anew f
        then made
        else elim (lookup key pools) [ none ↦ made | some pool ↦ (ok pool, pools) ]

-- ===== src/Memory.antt =====
-- throttled/store/memory.py: the in-memory store, an LRU cache whose entries expire. Each reading of
-- the monotonic clock is an argument of the method that makes it.
pub mod Effects
pub mod Invariant
pub mod Calls
pub mod Reads
pub mod Others
pub mod Hashes
use throttled_py.Action.{
  data_error, setup_error, key_error, Outcome, ok, raised, Action, pure, raise, gets, ◌>>=◌, ◌>>◌,
}
use throttled_py.Common.{
  ℕ, Bool, true, false, not, ◌&&◌, Option, none, some, [], ◌∷◌, leb, length, if◌then◌else◌,
}
use throttled_py.Common.Float.{Float, Real, of_int, zero_f, plus, minus, le, ceil, Num}
use throttled_py.Common.Int.{ℤ, pos, negsuc, leb_ℤ}
use throttled_py.Common.Text.{Text}
use throttled_py.Dict
use throttled_py.Dict.{Dict, lookup, contains, assign, erase, update, popitem_first}

-- constants.STORE_TTL_STATE_NOT_TTL and constants.STORE_TTL_STATE_NOT_EXIST
abbrev pub ttl_state_not_ttl : ℤ
ttl_state_not_ttl = negsuc 0

abbrev pub ttl_state_not_exist : ℤ
ttl_state_not_exist = negsuc 1

module _ ⦃F : Float⦄ where
  -- `types.StoreBucketValueT`
  pub data Bucket : Type 0 where
    num : Num → Bucket
    dict : Dict Num → Bucket

  -- The fields of `BaseMemoryStoreBackend`; the client is ordered from the least to the most recently
  -- used key.
  pub record Backend : Type 0 where
    pub max_size : ℕ
    pub expire_info : Dict Real
    pub client : Dict Bucket

  -- the constructor, on the value of the option MAX_SIZE
  unfoldable pub init : ℤ → Outcome Backend
  init (pos n) =
      if leb 1 n
      then ok (record { max_size = n; expire_info = []; client = [] })
      else raised setup_error
  init (negsuc n) = raised setup_error

  unfoldable pub exists : Text → Backend → Bool
  exists key b = contains key b.client

  unfoldable pub ttl : Text → Real → Backend → ℤ
  unfolding exists
  ttl key now b = elim (lookup key b.expire_info) [
    | none ↦ if exists key b then ttl_state_not_ttl else ttl_state_not_exist
    | some exp ↦
        let left = minus exp now in if le left zero_f then ttl_state_not_exist else ceil left
  ]

  unfoldable pub has_expired : Text → Real → Backend → Bool
  unfolding ttl
  has_expired key now b =
      let left = ttl key now b in leb_ℤ left ttl_state_not_exist && leb_ℤ ttl_state_not_exist left

  -- `self._client.popitem(last=False)` and the removal of its expiry; an empty client is a `KeyError`
  unfoldable pub evict_oldest : Action Backend Unit
  evict_oldest b = elim (popitem_first b.client) [
    | none ↦ (raised key_error, b)
    | some ((pop_key, _), rest) ↦
        (ok tt, record b { client = rest; expire_info = erase pop_key b.expire_info })
  ]

  unfoldable pub check_and_evict : Text → Action Backend Unit
  unfolding exists evict_oldest
  check_and_evict key b =
      if leb b.max_size (length b.client) && not (exists key b) then evict_oldest b else (ok tt, b)

  unfoldable pub expire : Text → ℤ → Real → Action Backend Unit
  expire key timeout now b =
      (ok tt, record b { expire_info = assign key (plus now (of_int timeout)) b.expire_info })

  -- `self.get_client()[key] = value`
  unfoldable pub assign_client : Text → Bucket → Action Backend Unit
  assign_client key value b = (ok tt, record b { client = assign key value b.client })

  -- `self._client.move_to_end(key)`
  unfoldable pub move_to_end : Text → Action Backend Unit
  move_to_end key b = elim (Dict.move_to_end key b.client) [
    | none ↦ (raised key_error, b)
    | some client ↦ (ok tt, record b { client = client })
  ]

  unfoldable pub delete : Text → Action Backend Bool
  delete key b = elim (lookup key b.client) [
    | none ↦ (ok false, record b { expire_info = erase key b.expire_info })
    | some _ ↦
        (ok true, record b { expire_info = erase key b.expire_info; client = erase key b.client })
  ]

  -- `get` on a live key, by what the client holds
  unfoldable pub read_num : Text → Option Bucket → Action Backend (Option Num)
  unfolding move_to_end
  read_num key none = pure none
  read_num key (some (dict kv)) = raise data_error
  read_num key (some (num value)) = do move_to_end key; pure (some value)

  unfoldable pub get : Text → Real → Action Backend (Option Num)
  unfolding has_expired delete read_num
  get key now b =
      if has_expired key now b
      then (delete key >>= λ _. pure none) b
      else read_num key (lookup key b.client) b

  unfoldable pub set : Text → Num → ℤ → Real → Action Backend Unit
  unfolding check_and_evict assign_client move_to_end expire
  set key value timeout now = do
    check_and_evict key
    assign_client key (num value)
    move_to_end key
    expire key timeout now

  -- the key-value pairs that `hset` writes
  unfoldable pub hset_items : Option Text → Option Num → Dict Num → Outcome (Dict Num)
  hset_items none value [] = raised data_error
  hset_items none value (item ∷ mapping) = ok (update [] (item ∷ mapping))
  hset_items (some key) none mapping = raised data_error
  hset_items (some key) (some value) mapping = ok (update ((key, value) ∷ []) mapping)

  unfoldable pub hset_write : Text → Dict Num → Option Bucket → Action Backend Unit
  unfolding check_and_evict assign_client
  hset_write name kv (some (num _)) = raise data_error
  hset_write name kv (some (dict origin)) = assign_client name (dict (update origin kv))
  hset_write name kv none = do check_and_evict name; assign_client name (dict kv)

  -- A mapping that is `None` and an empty one are told apart by no test: both are [].
  unfoldable pub hset : Text → Option Text → Option Num → Dict Num → Action Backend Unit
  unfolding hset_items hset_write move_to_end
  hset name key value mapping = do
    kv ← λ b. (hset_items key value mapping, b)
    bucket ← gets (λ b. lookup name b.client)
    hset_write name kv bucket
    move_to_end name

  unfoldable pub read_dict : Text → Option Bucket → Action Backend (Dict Num)
  unfolding move_to_end
  read_dict name none = pure []
  read_dict name (some (num _)) = raise data_error
  read_dict name (some (dict kv)) = do move_to_end name; pure kv

  unfoldable pub hgetall : Text → Real → Action Backend (Dict Num)
  unfolding has_expired delete read_dict
  hgetall name now b =
      if has_expired name now b
      then (delete name >>= λ _. pure []) b
      else read_dict name (lookup name b.client) b

-- ===== src/Memory/Invariant.antt =====
-- Every method of the memory store keeps the backend valid.
use throttled_py.Action.{Outcome, ok, raised}
use throttled_py.Common.{◌≡◌, refl, Option, none, some, [], arith}
use throttled_py.Common.Float.{Float, Real, of_int, plus, Num}
use throttled_py.Common.Int.{ℤ}
use throttled_py.Common.Text.{Text}
use throttled_py.Dict.{Dict, contains, lookup, update}
use throttled_py.Dict.Laws.{erase-IsDistinct, assign-IsDistinct, length-erase-le, length-assign}
use throttled_py.Memory.{
  Bucket, num, dict, Backend, assign_client, init, expire, delete, read_num, get, set, hset_items,
  hset, read_dict, hgetall,
}
use throttled_py.Memory.Effects.{
  IsValid, room, stored, room-IsValid, stored-IsValid, fits_in_room, fits_of_present, set_lem,
  hset_new, hset-update, hset_on_num, hset_invalid, read_num_lem, read_dict_lem,
}

module _ ⦃F : Float⦄ where
  -- The constructor accepts exactly the positive sizes, and builds a valid, empty backend.
  pub init-IsValid : (n : ℤ) {b : Backend} → init n ≡ ok b → IsValid b × (b.client ≡ [])
  unfolding init
  init-IsValid n e = ground arith

  pub expire-IsValid :
      (key : Text) (timeout : ℤ) (now : Real) (b : Backend)
      → IsValid b
      → IsValid (expire key timeout now b).1
  unfolding expire
  expire-IsValid key timeout now b h = record {
    positive = h.positive;
    bounded = h.bounded;
    distinct = h.distinct;
    distinct_expiry =
        assign-IsDistinct key (plus now (of_int timeout)) b.expire_info h.distinct_expiry;
  }

  pub delete-IsValid : (key : Text) (b : Backend) → IsValid b → IsValid (delete key b).1
  unfolding delete
  delete-IsValid key b h = ground (
    arith,
    erase-IsDistinct key b.expire_info h.distinct_expiry,
    erase-IsDistinct key b.client h.distinct,
    length-erase-le key b.client,
  )

  read_num-IsValid :
      (key : Text) (found : Option Bucket) (b : Backend)
      → lookup key b.client ≡ found
      → IsValid b
      → IsValid (read_num key found b).1
  unfolding read_num
  read_num-IsValid key none b e h = h
  read_num-IsValid key (some (dict kv)) b e h = h
  read_num-IsValid key (some (num v)) b e h =
      rw (read_num_lem key v b e) (stored-IsValid key (num v) b (fits_of_present key b e h) h)

  read_dict-IsValid :
      (key : Text) (found : Option Bucket) (b : Backend)
      → lookup key b.client ≡ found
      → IsValid b
      → IsValid (read_dict key found b).1
  unfolding read_dict
  read_dict-IsValid key none b e h = h
  read_dict-IsValid key (some (num v)) b e h = h
  read_dict-IsValid key (some (dict kv)) b e h =
      rw (read_dict_lem key kv b e) (stored-IsValid key (dict kv) b (fits_of_present key b e h) h)

  pub get-IsValid : (key : Text) (now : Real) (b : Backend) → IsValid b → IsValid (get key now b).1
  unfolding get
  get-IsValid key now b h =
      ground (arith, delete-IsValid key b h, read_num-IsValid key (lookup key b.client) b refl h)

  pub hgetall-IsValid :
      (name : Text) (now : Real) (b : Backend) → IsValid b → IsValid (hgetall name now b).1
  unfolding hgetall
  hgetall-IsValid name now b h =
      ground
        (arith, delete-IsValid name b h, read_dict-IsValid name (lookup name b.client) b refl h)

  pub set-IsValid :
      (key : Text) (value : Num) (timeout : ℤ) (now : Real) (b : Backend)
      → IsValid b
      → IsValid (set key value timeout now b).1
  set-IsValid key value timeout now b h = rw (set_lem key value timeout now b h) (
      expire-IsValid key timeout now (stored key (num value) (room key b))
        (stored-IsValid key (num value) (room key b) (fits_in_room key b h) (room-IsValid key b h)))

  hset_onto :
      (name : Text) (key : Option Text) (value : Option Num) (mapping kv : Dict Num)
      (found : Option Bucket) (b : Backend)
      → hset_items key value mapping ≡ ok kv
      → lookup name b.client ≡ found
      → IsValid b
      → IsValid (hset name key value mapping b).1
  hset_onto name key value mapping kv none b items e h =
      rw (hset_new name key value mapping b items e h) (
        stored-IsValid name (dict kv) (room name b) (fits_in_room name b h) (room-IsValid name b h))
  hset_onto name key value mapping kv (some (num v)) b items e h =
      rw (hset_on_num name key value mapping b items e) h
  hset_onto name key value mapping kv (some (dict origin)) b items e h =
      rw (hset-update name key value mapping b items e)
        (stored-IsValid name (dict (update origin kv)) b (fits_of_present name b e h) h)

  hset_with :
      (name : Text) (key : Option Text) (value : Option Num) (mapping : Dict Num)
      (items : Outcome (Dict Num)) (b : Backend)
      → hset_items key value mapping ≡ items
      → IsValid b
      → IsValid (hset name key value mapping b).1
  hset_with name key value mapping (ok kv) b e h =
      hset_onto name key value mapping kv (lookup name b.client) b e refl h
  hset_with name key value mapping (raised x) b e h = rw (hset_invalid name key value mapping b e) h

  pub hset-IsValid :
      (name : Text) (key : Option Text) (value : Option Num) (mapping : Dict Num) (b : Backend)
      → IsValid b
      → IsValid (hset name key value mapping b).1
  hset-IsValid name key value mapping b h =
      hset_with name key value mapping (hset_items key value mapping) b refl h

  -- To overwrite a present key keeps the backend valid.
  pub assign_client-IsValid :
      (key : Text) (value : Bucket) (b : Backend) {v : Bucket}
      → lookup key b.client ≡ some v
      → IsValid b
      → IsValid (assign_client key value b).1
  unfolding assign_client contains
  assign_client-IsValid key value b e h = record {
    positive = h.positive;
    bounded = ground (arith, length-assign key value b.client, h.bounded);
    distinct = assign-IsDistinct key value b.client h.distinct;
    distinct_expiry = h.distinct_expiry;
  }

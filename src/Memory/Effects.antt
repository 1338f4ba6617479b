-- ===== src/Memory/Effects.antt =====
-- What the methods that write do to the backend, with the exceptions gone.
use throttled_py.Action.{Exc, data_error, ok, raised}
use throttled_py.Common.{
  ◌+◌, ◌≤◌, ◌≡◌, refl, not, ◌&&◌, Option, none, some, [], ◌∷◌, ◌++◌, arith, ap, ◌∙◌, leb, length,
  if◌then◌else◌,
}
use throttled_py.Common.Float.{Float, Real, Num}
use throttled_py.Common.Int.{ℤ}
use throttled_py.Common.Text.{Text}
use throttled_py.Dict
use throttled_py.Dict.{Dict, lookup, contains, assign, erase, update, popitem_first}
use throttled_py.Dict.Laws.{
  IsDistinct, append-IsDistinct, erase-IsDistinct, lookup-erase_self, length-append_one,
  length-erase, length-erase-le, move_to_end-assign,
}
use throttled_py.Memory.{
  Bucket, num, dict, Backend, check_and_evict, expire, set, hset_write, hset, hset_items,
  move_to_end, read_num, read_dict,
}

module _ ⦃F : Float⦄ where
  pub record IsValid (b : Backend) : Type 0 where
    pub positive : 1 ≤ b.max_size
    pub bounded : length b.client ≤ b.max_size
    pub distinct : IsDistinct b.client
    pub distinct_expiry : IsDistinct b.expire_info

  unfoldable pub drop_first : Dict Bucket → Backend → Backend
  drop_first [] b = b
  drop_first ((key, _) ∷ rest) b = record b { client = rest; expire_info = erase key b.expire_info }

  -- The backend with room for a key: a full one loses its least recently used key, unless the key
  -- is already there.
  unfoldable pub room : Text → Backend → Backend
  room key b =
      if leb b.max_size (length b.client) && not (contains key b.client)
      then drop_first b.client b
      else b

  -- The backend with a bucket as its most recently used one.
  unfoldable pub stored : Text → Bucket → Backend → Backend
  stored key value b = record b { client = erase key b.client ++ (key, value) ∷ [] }

  check_and_evict-room :
      (key : Text) (c : Dict Bucket) (b : Backend)
      → b.client ≡ c
      → IsValid b
      → check_and_evict key b ≡ (ok tt, room key b)
  unfolding check_and_evict room drop_first popitem_first
  check_and_evict-room key [] b e h = rw e (ground arith)
  check_and_evict-room key (item ∷ rest) b e h = rw e (ground arith)

  -- Eviction never raises on a valid backend.
  pub check_and_evict_lem :
      (key : Text) (b : Backend) → IsValid b → check_and_evict key b ≡ (ok tt, room key b)
  check_and_evict_lem key b h = check_and_evict-room key b.client b refl h

  drop_first-IsValid :
      (c : Dict Bucket) (b : Backend) → b.client ≡ c → IsValid b → IsValid (drop_first c b)
  unfolding drop_first
  drop_first-IsValid [] b e h = h
  drop_first-IsValid ((key, value) ∷ rest) b e h =
      let kept : IsDistinct ((key, value) ∷ rest) = rw e at h.distinct in
      record {
        positive = h.positive;
        bounded = omega (arith, h.bounded, ap (length {A = Text × Bucket}) e);
        distinct = kept.1;
        distinct_expiry = erase-IsDistinct key b.expire_info h.distinct_expiry;
      }

  pub room-IsValid : (key : Text) (b : Backend) → IsValid b → IsValid (room key b)
  unfolding room
  room-IsValid key b h = ground (arith, drop_first-IsValid b.client b refl h)

  drop_first_room :
      (c : Dict Bucket) (b : Backend)
      → b.client ≡ c
      → IsValid b
      → length (drop_first c b).client + 1 ≤ b.max_size
  unfolding drop_first
  drop_first_room [] b e h = omega (arith, h.positive, ap (length {A = Text × Bucket}) e)
  drop_first_room (item ∷ rest) b e h = omega (arith, h.bounded, ap (length {A = Text × Bucket}) e)

  lookup-drop_first :
      (key : Text) (c : Dict Bucket) (b : Backend)
      → b.client ≡ c
      → lookup key c ≡ none
      → lookup key (drop_first c b).client ≡ none
  unfolding drop_first lookup
  lookup-drop_first key [] b e absent = rw e
  lookup-drop_first key (item ∷ rest) b e absent = ground arith

  max_size-drop_first : (c : Dict Bucket) (b : Backend) → (drop_first c b).max_size ≡ b.max_size
  unfolding drop_first
  max_size-drop_first [] b = refl
  max_size-drop_first (item ∷ rest) b = refl

  pub max_size-room : (key : Text) (b : Backend) → (room key b).max_size ≡ b.max_size
  unfolding room
  max_size-room key b = ground (arith, max_size-drop_first b.client b)

  -- Room is made without touching the key itself.
  pub lookup-room_self :
      (key : Text) (b : Backend) → lookup key (room key b).client ≡ lookup key b.client
  unfolding room contains
  lookup-room_self key b = ground (arith, lookup-drop_first key b.client b refl)

  -- One more key fits after room was made for it.
  pub room_fits :
      (key : Text) (b : Backend)
      → IsValid b
      → lookup key b.client ≡ none
      → length (room key b).client + 1 ≤ b.max_size
  unfolding room contains
  room_fits key b h absent = ground (arith, drop_first_room b.client b refl h)

  -- A bucket that fits is stored in a valid backend.
  pub stored-IsValid :
      (key : Text) (value : Bucket) (b : Backend)
      → length (erase key b.client) + 1 ≤ b.max_size
      → IsValid b
      → IsValid (stored key value b)
  unfolding stored
  stored-IsValid key value b fits h = record {
    positive = h.positive;
    bounded = omega (arith, length-append_one (erase key b.client) (key, value));
    distinct =
        append-IsDistinct (erase key b.client) key value (erase-IsDistinct key b.client h.distinct)
          (lookup-erase_self key b.client h.distinct);
    distinct_expiry = h.distinct_expiry;
  }

  -- A present key fits.
  pub fits_of_present :
      (key : Text) (b : Backend) {v : Bucket}
      → lookup key b.client ≡ some v
      → IsValid b
      → length (erase key b.client) + 1 ≤ b.max_size
  fits_of_present key b {v} e h = omega (arith, length-erase key v b.client e, h.bounded)

  fits_found :
      (key : Text) (found : Option Bucket) (b : Backend)
      → lookup key b.client ≡ found
      → IsValid b
      → length (erase key (room key b).client) + 1 ≤ (room key b).max_size
  fits_found key none b e h =
      omega
        (arith, room_fits key b h e, length-erase-le key (room key b).client, max_size-room key b)
  fits_found key (some v) b e h =
      fits_of_present key (room key b) (lookup-room_self key b ∙ e) (room-IsValid key b h)

  -- After room was made every key fits.
  pub fits_in_room :
      (key : Text) (b : Backend)
      → IsValid b
      → length (erase key (room key b).client) + 1 ≤ (room key b).max_size
  fits_in_room key b h = fits_found key (lookup key b.client) b refl h

  pub set_lem :
      (key : Text) (value : Num) (timeout : ℤ) (now : Real) (b : Backend)
      → IsValid b
      → set key value timeout now b ≡ expire key timeout now (stored key (num value) (room key b))
  unfolding set stored
  set_lem key value timeout now b h =
      rw (check_and_evict_lem key b h)
        (rw (move_to_end-assign key (num value) (room key b).client, move_to_end))

  pub hset_new :
      (name : Text) (key : Option Text) (value : Option Num) (mapping : Dict Num) (b : Backend)
      {kv : Dict Num}
      → hset_items key value mapping ≡ ok kv
      → lookup name b.client ≡ none
      → IsValid b
      → hset name key value mapping b ≡ (ok tt, stored name (dict kv) (room name b))
  unfolding hset hset_write stored
  hset_new name key value mapping b {kv} items absent h =
      rw (items, absent, hset_write)
        (rw (check_and_evict_lem name b h)
          (rw (move_to_end-assign name (dict kv) (room name b).client, move_to_end)))

  pub hset-update :
      (name : Text) (key : Option Text) (value : Option Num) (mapping : Dict Num) (b : Backend)
      {kv origin : Dict Num}
      → hset_items key value mapping ≡ ok kv
      → lookup name b.client ≡ some (dict origin)
      → hset name key value mapping b ≡ (ok tt, stored name (dict (update origin kv)) b)
  unfolding hset hset_write stored
  hset-update name key value mapping b {kv} {origin} items found =
      rw (items, found, hset_write)
        (rw (move_to_end-assign name (dict (update origin kv)) b.client, move_to_end))

  -- Reading a live key makes it the most recently used one.
  pub read_num_lem :
      (key : Text) (v : Num) (b : Backend)
      → lookup key b.client ≡ some (num v)
      → read_num key (some (num v)) b ≡ (ok (some v), stored key (num v) b)
  unfolding read_num move_to_end Dict.move_to_end stored
  read_num_lem key v b e = ground arith

  pub read_dict_lem :
      (name : Text) (kv : Dict Num) (b : Backend)
      → lookup name b.client ≡ some (dict kv)
      → read_dict name (some (dict kv)) b ≡ (ok kv, stored name (dict kv) b)
  unfolding read_dict move_to_end Dict.move_to_end stored
  read_dict_lem name kv b e = ground arith

  pub hset_on_num :
      (name : Text) (key : Option Text) (value : Option Num) (mapping : Dict Num) (b : Backend)
      {kv : Dict Num} {v : Num}
      → hset_items key value mapping ≡ ok kv
      → lookup name b.client ≡ some (num v)
      → hset name key value mapping b ≡ (raised data_error, b)
  unfolding hset hset_write
  hset_on_num name key value mapping b items found = rw (items, found, hset_write)

  pub hset_invalid :
      (name : Text) (key : Option Text) (value : Option Num) (mapping : Dict Num) (b : Backend)
      {e : Exc}
      → hset_items key value mapping ≡ raised e
      → hset name key value mapping b ≡ (raised e, b)
  unfolding hset
  hset_invalid name key value mapping b items = rw items

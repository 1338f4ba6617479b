-- ===== src/Memory/Reads.antt =====
-- What can be read from the memory store after it was written, and when.
use throttled_py.Action.{ok}
use throttled_py.Common.{
  ◌≡◌, refl, ◌∙◌, Bool-cases, inl, inr, true, false, not, none, some, arith, if◌then◌else◌,
}
use throttled_py.Common.Float.{Float, Real, of_int, plus, minus, le, Num}
use throttled_py.Common.Int.{ℤ}
use throttled_py.Common.Text.{Text, str_eq, str_eq_refl}
use throttled_py.Dict.{Dict, lookup, contains, erase}
use throttled_py.Dict.Laws.{
  lookup-assign, lookup-append, lookup-erase_self, lookup-erase_ne, IsDistinct,
}
use throttled_py.Memory.{
  Bucket, num, dict, Backend, exists, has_expired, expire, delete, get, set, hgetall,
}
use throttled_py.Memory.Effects.{
  IsValid, room, stored, room-IsValid, set_lem, read_num_lem, read_dict_lem,
}
use throttled_py.Memory.Invariant.{set-IsValid}

module _ ⦃F : Float⦄ where
  -- The backend holds a bucket under the key, until the expiry.
  pub record Holds (key : Text) (value : Bucket) (exp : Real) (b : Backend) : Type 0 where
    pub bucket : lookup key b.client ≡ some value
    pub expiry : lookup key b.expire_info ≡ some exp

  pub has_expired-live :
      (key : Text) (exp now : Real) (b : Backend)
      → lookup key b.expire_info ≡ some exp
      → le exp now ≡ false
      → has_expired key now b ≡ false
  unfolding has_expired
  has_expired-live key exp now b e h =
      ground (arith, F.minus-pos exp now h, F.ceil-pos (minus exp now))

  has_expired-due :
      (key : Text) (exp now : Real) (b : Backend)
      → lookup key b.expire_info ≡ some exp
      → le exp now ≡ true
      → has_expired key now b ≡ true
  unfolding has_expired
  has_expired-due key exp now b e h = ground (arith, F.minus-le-zero exp now h)

  pub get_kept :
      (key : Text) (v : Num) (now : Real) (b : Backend)
      → lookup key b.client ≡ some (num v)
      → has_expired key now b ≡ false
      → get key now b ≡ (ok (some v), stored key (num v) b)
  unfolding get
  get_kept key v now b e live = rw (live, e) (read_num_lem key v b e)

  pub hgetall_kept :
      (key : Text) (kv : Dict Num) (now : Real) (b : Backend)
      → lookup key b.client ≡ some (dict kv)
      → has_expired key now b ≡ false
      → hgetall key now b ≡ (ok kv, stored key (dict kv) b)
  unfolding hgetall
  hgetall_kept key kv now b e live = rw (live, e) (read_dict_lem key kv b e)

  pub get_live :
      (key : Text) (v : Num) (exp now : Real) (b : Backend)
      → Holds key (num v) exp b
      → le exp now ≡ false
      → get key now b ≡ (ok (some v), stored key (num v) b)
  get_live key v exp now b h live =
      get_kept key v now b h.bucket (has_expired-live key exp now b h.expiry live)

  pub get_due :
      (key : Text) (exp now : Real) (b : Backend)
      → lookup key b.expire_info ≡ some exp
      → le exp now ≡ true
      → get key now b ≡ (ok none, (delete key b).1)
  unfolding get delete
  get_due key exp now b e due = ground (arith, has_expired-due key exp now b e due)

  pub lookup-stored_self :
      (key : Text) (value : Bucket) (b : Backend)
      → IsDistinct b.client
      → lookup key (stored key value b).client ≡ some value
  unfolding stored
  lookup-stored_self key value b h = ground (
    arith,
    lookup-append key (erase key b.client) key value,
    lookup-erase_self key b.client h,
    str_eq_refl key,
  )

  -- To store a bucket leaves every other key alone.
  pub lookup-stored_ne :
      (key other : Text) (value : Bucket) (b : Backend)
      → str_eq key other ≡ false
      → lookup other (stored key value b).client ≡ lookup other b.client
  unfolding stored
  lookup-stored_ne key other value b h = ground (
    arith,
    lookup-append other (erase key b.client) key value,
    lookup-erase_ne key other b.client h,
  )

  -- A read keeps what the key holds.
  pub stored-Holds :
      (key : Text) (value new : Bucket) (exp : Real) (b : Backend)
      → IsDistinct b.client
      → Holds key value exp b
      → Holds key new exp (stored key new b)
  unfolding stored
  stored-Holds key value new exp b d h = record {
    bucket = unfold stored in lookup-stored_self key new b d;
    expiry = h.expiry;
  }

  -- A `set` succeeds on every valid backend, and from then on the key holds the value.
  pub set-Holds :
      (key : Text) (v : Num) (timeout : ℤ) (now : Real) (b : Backend)
      → IsValid b
      → ((set key v timeout now b).0 ≡ ok tt)
        × Holds key (num v) (plus now (of_int timeout)) (set key v timeout now b).1
  unfolding expire
  set-Holds key v timeout now b h =
      let info = (stored key (num v) (room key b)).expire_info in
      rw (set_lem key v timeout now b h) (
        refl,
        record {
          bucket = lookup-stored_self key (num v) (room key b) (room-IsValid key b h).distinct;
          expiry =
              lookup-assign key key (plus now (of_int timeout)) info ∙ rw (str_eq_refl key) refl;
        },
      )

  exists-delete : (key : Text) (b : Backend) → IsValid b → exists key (delete key b).1 ≡ false
  unfolding exists contains delete
  exists-delete key b h = ground (arith, lookup-erase_self key b.client h.distinct)

  exists-stored :
      (key : Text) (value : Bucket) (b : Backend)
      → IsValid b
      → exists key (stored key value b) ≡ true
  unfolding exists contains
  exists-stored key value b h = ground (arith, lookup-stored_self key value b h.distinct)

  get-Holds :
      (key : Text) (v : Num) (exp later : Real) (b : Backend)
      → IsValid b
      → Holds key (num v) exp b
      → ((get key later b).0 ≡ ok (if le exp later then none else some v))
        × (exists key (get key later b).1 ≡ not (le exp later))
  get-Holds key v exp later b valid h = elim (Bool-cases (le exp later)) [
    | inl due ↦ rw (due, get_due key exp later b h.expiry due) (refl, exists-delete key b valid)
    | inr live ↦
        rw (live, get_live key v exp later b h live) (refl, exists-stored key (num v) b valid)
  ]

  -- After a `set` with a timeout on a valid backend, a `get` at a later clock reading returns the
  -- value as long as the expiry is not reached; from then on it returns nothing, and the key is gone.
  pub get-set :
      (key : Text) (v : Num) (timeout : ℤ) (now later : Real) (b : Backend)
      → IsValid b
      → let b' = (set key v timeout now b).1 in
        let due = le (plus now (of_int timeout)) later in
        ((get key later b').0 ≡ ok (if due then none else some v))
        × (exists key (get key later b').1 ≡ not due)
  get-set key v timeout now later b h =
      get-Holds key v (plus now (of_int timeout)) later (set key v timeout now b).1
        (set-IsValid key v timeout now b h) (set-Holds key v timeout now b h).1

  -- A `set` never raises on a valid backend.
  pub set_ok :
      (key : Text) (v : Num) (timeout : ℤ) (now : Real) (b : Backend)
      → IsValid b
      → set key v timeout now b ≡ (ok tt, (set key v timeout now b).1)
  unfolding expire
  set_ok key v timeout now b h = rw (set_lem key v timeout now b h)

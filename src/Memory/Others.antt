-- ===== src/Memory/Others.antt =====
-- What a read of one key leaves of another one.
use throttled_py.Common.{◌≡◌, refl, ◌∙◌, false, Option, none, some, arith}
use throttled_py.Common.Float.{Float, Real}
use throttled_py.Common.Text.{Text, str_eq}
use throttled_py.Dict.{lookup}
use throttled_py.Dict.Laws.{lookup-erase_ne}
use throttled_py.Memory.{Bucket, num, dict, Backend, get, delete, read_num}
use throttled_py.Memory.Effects.{stored, read_num_lem}
use throttled_py.Memory.Reads.{Holds, lookup-stored_ne}

module _ ⦃F : Float⦄ where
  delete-Holds_other :
      (other key : Text) (value : Bucket) (exp : Real) (b : Backend)
      → str_eq other key ≡ false
      → Holds key value exp b
      → Holds key value exp (delete other b).1
  unfolding delete
  delete-Holds_other other key value exp b e h =
      ground
        (arith, lookup-erase_ne other key b.client e, lookup-erase_ne other key b.expire_info e)

  read_num-Holds_other :
      (other key : Text) (value : Bucket) (exp : Real) (found : Option Bucket) (b : Backend)
      → lookup other b.client ≡ found
      → str_eq other key ≡ false
      → Holds key value exp b
      → Holds key value exp (read_num other found b).1
  unfolding read_num
  read_num-Holds_other other key value exp none b f e h = h
  read_num-Holds_other other key value exp (some (dict kv)) b f e h = h
  read_num-Holds_other other key value exp (some (num v)) b f e h =
      rw (read_num_lem other v b f) (record {
        bucket = lookup-stored_ne other key (num v) b e ∙ h.bucket;
        expiry = unfold stored in h.expiry;
      })

  -- To read a key leaves every other key with its value and its expiry.
  pub get-Holds_other :
      (other key : Text) (value : Bucket) (exp now : Real) (b : Backend)
      → str_eq other key ≡ false
      → Holds key value exp b
      → Holds key value exp (get other now b).1
  unfolding get
  get-Holds_other other key value exp now b e h = ground (
    arith,
    delete-Holds_other other key value exp b e h,
    read_num-Holds_other other key value exp (lookup other b.client) b refl e h,
  )

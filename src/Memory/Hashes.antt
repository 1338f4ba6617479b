-- ===== src/Memory/Hashes.antt =====
-- A hash that could be read can be written.
use throttled_py.Action.{ok}
use throttled_py.Common.{
  ◌≡◌, refl, ◌≢◌, Bool-cases, inl, inr, true, false, Option, none, some, [], arith,
}
use throttled_py.Common.Float.{Float, Real, Num}
use throttled_py.Common.Text.{Text}
use throttled_py.Dict.{Dict, lookup}
use throttled_py.Dict.Laws.{lookup-erase_self}
use throttled_py.Memory.{
  Bucket, num, dict, Backend, delete, has_expired, read_dict, hgetall, hset, hset_items,
}
use throttled_py.Memory.Effects.{IsValid, hset_new, hset-update, read_dict_lem}
use throttled_py.Memory.Invariant.{hgetall-IsValid}
use throttled_py.Memory.Reads.{lookup-stored_self}

module _ ⦃F : Float⦄ where
  -- The key holds no number.
  abbrev pub IsHash : Text → Backend → Type 0
  IsHash key b = (v : Num) → lookup key b.client ≢ some (num v)

  read_dict-IsHash :
      (key : Text) (found : Option Bucket) (b : Backend) {kv : Dict Num}
      → lookup key b.client ≡ found
      → IsValid b
      → (read_dict key found b).0 ≡ ok kv
      → IsHash key (read_dict key found b).1
  read_dict-IsHash key none b e h p v held = unfold read_dict in cc (e, held)
  read_dict-IsHash key (some (num w)) b e h p v held = unfold read_dict in cc p
  read_dict-IsHash key (some (dict kv)) b e h p v held =
      let q = rw (read_dict_lem key kv b e) at held in
      cc (q, lookup-stored_self key (dict kv) b h.distinct)

  delete-IsHash : (key : Text) (b : Backend) → IsValid b → IsHash key (delete key b).1
  unfolding delete
  delete-IsHash key b h v held = ground (arith, lookup-erase_self key b.client h.distinct, held)

  pub hgetall_due :
      (key : Text) (now : Real) (b : Backend)
      → has_expired key now b ≡ true
      → hgetall key now b ≡ (ok [], (delete key b).1)
  unfolding hgetall delete
  hgetall_due key now b due = ground arith

  pub hgetall_read :
      (key : Text) (now : Real) (b : Backend)
      → has_expired key now b ≡ false
      → hgetall key now b ≡ read_dict key (lookup key b.client) b
  unfolding hgetall
  hgetall_read key now b live = rw live

  pub hgetall-IsHash :
      (key : Text) (now : Real) (b : Backend) {kv : Dict Num}
      → IsValid b
      → (hgetall key now b).0 ≡ ok kv
      → IsHash key (hgetall key now b).1
  hgetall-IsHash key now b {kv} h p = elim (Bool-cases (has_expired key now b)) [
    | inl due ↦ rw (hgetall_due key now b due) (delete-IsHash key b h)
    | inr live ↦
        let e = hgetall_read key now b live in
        rw e (read_dict-IsHash key (lookup key b.client) b refl h (rw e at p))
  ]

  pub hset-IsHash :
      (key : Text) (kv : Dict Num) (found : Option Bucket) (b : Backend)
      → hset_items none none kv ≡ ok kv
      → lookup key b.client ≡ found
      → IsHash key b
      → IsValid b
      → (hset key none none kv b).0 ≡ ok tt
  hset-IsHash key kv none b items e p h = rw (hset_new key none none kv b items e h)
  hset-IsHash key kv (some (num v)) b items e p h = absurd (p v e)
  hset-IsHash key kv (some (dict origin)) b items e p h =
      rw (hset-update key none none kv b items e)

  -- To write pairs to a hash that was just read never raises.
  pub hset-hgetall :
      (key : Text) (kv : Dict Num) (now : Real) (b : Backend) {old : Dict Num}
      → hset_items none none kv ≡ ok kv
      → IsValid b
      → (hgetall key now b).0 ≡ ok old
      → (hset key none none kv (hgetall key now b).1).0 ≡ ok tt
  hset-hgetall key kv now b items h p =
      let b' = (hgetall key now b).1 in
      hset-IsHash key kv (lookup key b'.client) b' items refl (hgetall-IsHash key now b h p)
        (hgetall-IsValid key now b h)

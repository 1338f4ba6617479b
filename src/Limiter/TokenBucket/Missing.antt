-- ===== src/Limiter/TokenBucket/Missing.antt =====
-- The token bucket of a key that has none, or that has one which is expired: a request starts with a
-- full one.
use throttled_py.Action.{ok, after}
use throttled_py.Common.{
  ℕ, ◌≡◌, ◌⊎◌, refl, ◌∙◌, true, false, none, some, [], arith, Bool-cases, inl, inr, if◌then◌else◌,
}
use throttled_py.Common.Float.{Float, Real, of_int, plus}
use throttled_py.Common.Int.{ℤ, pos, ltb_ℤ, ◌-ℤ◌}
use throttled_py.Common.Text.{Text, str_eq_refl}
use throttled_py.Dict.{lookup}
use throttled_py.Dict.Laws.{lookup-erase_self, lookup-assign}
use throttled_py.Limiter.TokenBucket.{bucket_of, refilled, do_limit}
use throttled_py.Limiter.TokenBucket.Bucket.{
  IsBucket, fill_timeout, items_bucket, hset_bucket, stored-IsBucket, expire-IsBucket,
}
use throttled_py.Memory.{Backend, dict, delete, read_dict, hgetall, hset, expire, has_expired}
use throttled_py.Memory.Effects.{
  IsValid, room, stored, room-IsValid, fits_in_room, stored-IsValid, hset_new,
}
use throttled_py.Memory.Hashes.{hgetall_due, hgetall_read}
use throttled_py.Memory.Invariant.{delete-IsValid}
use throttled_py.Memory.Reads.{hgetall_kept, lookup-stored_self}

module _ ⦃F : Float⦄ where
  -- A request at this time finds no bucket.
  abbrev pub IsMissing : Text → Real → Backend → Type 0
  IsMissing key now b = (has_expired key now b ≡ true) ⊎ (lookup key b.client ≡ none)

  -- The store has no bucket for the key.
  pub record IsAbsent (key : Text) (b : Backend) : Type 0 where
    pub valid : IsValid b
    pub absent : lookup key b.client ≡ none

  delete-IsAbsent : (key : Text) (b : Backend) → IsValid b → IsAbsent key (delete key b).1
  unfolding delete
  delete-IsAbsent key b h = record {
    valid = unfold delete in delete-IsValid key b h;
    absent = ground (arith, lookup-erase_self key b.client h.distinct);
  }

  read_absent :
      (key : Text) (b : Backend)
      → lookup key b.client ≡ none
      → read_dict key (lookup key b.client) b ≡ (ok [], b)
  unfolding read_dict
  read_absent key b absent = rw absent

  -- The read of a missing bucket finds nothing, and leaves nothing of it.
  hgetall_missing :
      (key : Text) (now : Real) (b : Backend)
      → IsValid b
      → IsMissing key now b
      → ((hgetall key now b).0 ≡ ok []) × IsAbsent key (hgetall key now b).1
  hgetall_missing key now b h missing = elim (Bool-cases (has_expired key now b)) [
    | inl due ↦ rw (hgetall_due key now b due) (refl, delete-IsAbsent key b h)
    | inr live ↦ elim missing [
      | inl due ↦ absurd (cc)
      | inr absent ↦
          rw (hgetall_read key now b live ∙ read_absent key b absent)
            (refl, record { valid = h; absent = absent })
    ]
  ]

  -- A new bucket is written to a store that has none for the key.
  hset_missing :
      (key : Text) (tokens : ℤ) (now : ℕ) (b : Backend)
      → IsAbsent key b
      → let b' = stored key (dict (bucket_of tokens now)) (room key b) in
        (hset key none none (bucket_of tokens now) b ≡ (ok tt, b')) × IsBucket key tokens now b'
  hset_missing key tokens now b h =
      let valid = room-IsValid key b h.valid in
      (
        hset_new key none none (bucket_of tokens now) b (items_bucket tokens now) h.absent h.valid,
        record {
          valid =
              stored-IsValid key (dict (bucket_of tokens now)) (room key b)
                (fits_in_room key b h.valid) valid;
          bucket = lookup-stored_self key (dict (bucket_of tokens now)) (room key b) valid.distinct;
        },
      )

  pub expire_sets :
      (key : Text) (timeout : ℤ) (now : Real) (b : Backend)
      → lookup key (expire key timeout now b).1.expire_info ≡ some (plus now (of_int timeout))
  unfolding expire
  expire_sets key timeout now b =
      lookup-assign key key (plus now (of_int timeout)) b.expire_info ∙ rw (str_eq_refl key) refl

  -- A request that asks for more than a full bucket is denied.
  pub missing_denied :
      (key : Text) (rate : Real) (capacity cost now : ℕ) (t : ℕ → Real) (b : Backend)
      → IsValid b
      → IsMissing key (t 0) b
      → let found = refilled rate capacity now [] in
        ltb_ℤ found (pos cost) ≡ true
        → let done = do_limit key rate capacity cost now t b in
          (done.0 ≡ ok (true, found)) × IsAbsent key done.1
  unfolding do_limit
  missing_denied key rate capacity cost now t b h missing short =
      let read = hgetall_missing key (t 0) b h missing in
      rw (read.0, after) (rw short (refl, read.1))

  -- Any other one is admitted: the bucket that it leaves expires after twice its fill time.
  pub missing_granted :
      (key : Text) (rate : Real) (capacity cost now : ℕ) (t : ℕ → Real) (b : Backend)
      → IsValid b
      → IsMissing key (t 0) b
      → let found = refilled rate capacity now [] in
        ltb_ℤ found (pos cost) ≡ false
        → let done = do_limit key rate capacity cost now t b in
          (done.0 ≡ ok (false, found -ℤ pos cost))
          × IsBucket key (found -ℤ pos cost) now done.1
          × (lookup key done.1.expire_info
              ≡ some (plus (t 1) (of_int (fill_timeout rate capacity))))
  unfolding do_limit expire
  missing_granted key rate capacity cost now t b h missing enough =
      let left = refilled rate capacity now [] -ℤ pos cost in
      let read = hgetall_missing key (t 0) b h missing in
      let b' = (hgetall key (t 0) b).1 in
      let written = hset_missing key left now b' read.1 in
      let b'' = stored key (dict (bucket_of left now)) (room key b') in
      rw (read.0, after)
        (rw (enough, written.0)
          (
            refl,
            expire-IsBucket key left (fill_timeout rate capacity) now (t 1) b'' written.1,
            expire_sets key (fill_timeout rate capacity) (t 1) b'',
          ))

  -- A request that finds a live bucket leaves its expiry as it was, or sets it anew.
  pub live_expiry :
      (key : Text) (rate : Real) (capacity cost now : ℕ) (t : ℕ → Real) (tokens : ℤ) (last : ℕ)
      (b : Backend)
      → IsBucket key tokens last b
      → has_expired key (t 0) b ≡ false
      → let limited = ltb_ℤ (refilled rate capacity now (bucket_of tokens last)) (pos cost) in
        lookup key (do_limit key rate capacity cost now t b).1.expire_info ≡ (
          if limited
          then lookup key b.expire_info
          else some (plus (t 1) (of_int (fill_timeout rate capacity))))
  unfolding do_limit expire stored
  live_expiry key rate capacity cost now t tokens last b h live =
      let found = refilled rate capacity now (bucket_of tokens last) in
      let b' = stored key (dict (bucket_of tokens last)) b in
      let h' = stored-IsBucket key tokens tokens last last b h in
      elim (Bool-cases (ltb_ℤ found (pos cost))) [
        | inl short ↦
            rw (hgetall_kept key (bucket_of tokens last) (t 0) b h.bucket live) (rw short refl)
        | inr enough ↦ rw (hgetall_kept key (bucket_of tokens last) (t 0) b h.bucket live) (
            rw (enough, hset_bucket key tokens (found -ℤ pos cost) last now b' h')
              (expire_sets key (fill_timeout rate capacity) (t 1)
                (stored key (dict (bucket_of (found -ℤ pos cost) now)) b')))
      ]

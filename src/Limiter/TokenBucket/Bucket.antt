-- ===== src/Limiter/TokenBucket/Bucket.antt =====
-- One bucket of the token-bucket limiter: what a request does to it.
use throttled_py.Action.{ok}
use throttled_py.Common.{
  ℕ, ◌≡◌, refl, ◌∙◌, true, false, none, some, if◌then◌else◌, Bool-cases, inl, inr,
}
use throttled_py.Common.Float.{Float, Real, of_int, times, over, floor, ceil}
use throttled_py.Common.Int.{ℤ, pos, ltb_ℤ, ◌+ℤ◌, ◌-ℤ◌, max_ℤ, min_ℤ}
use throttled_py.Common.Text.{Text, str_eq}
use throttled_py.Dict.{lookup, update, assign}
use throttled_py.Limiter.TokenBucket.{bucket_of, refilled, do_limit}
use throttled_py.Memory.{Backend, dict, hset, hset_items, expire, has_expired}
use throttled_py.Memory.Effects.{IsValid, stored, stored-IsValid, fits_of_present, hset-update}
use throttled_py.Memory.Invariant.{expire-IsValid}
use throttled_py.Memory.Reads.{hgetall_kept, lookup-stored_self}

module _ ⦃F : Float⦄ where
  -- The store holds a bucket under the key, with some tokens at the time of its last refresh.
  pub record IsBucket (key : Text) (tokens : ℤ) (last : ℕ) (b : Backend) : Type 0 where
    pub valid : IsValid b
    pub bucket : lookup key b.client ≡ some (dict (bucket_of tokens last))

  -- The tokens that are filled in between two times.
  abbrev pub filled_in : Real → ℕ → ℕ → ℤ
  filled_in rate last now = floor (times (of_int (max_ℤ (pos 0) (pos now -ℤ pos last))) rate)

  pub refilled_bucket :
      (rate : Real) (capacity now last : ℕ) (tokens : ℤ)
      → refilled rate capacity now (bucket_of tokens last)
        ≡ min_ℤ (pos capacity) (tokens +ℤ filled_in rate last now)
  unfolding refilled lookup str_eq
  refilled_bucket rate capacity now last tokens = refl

  pub items_bucket :
      (tokens : ℤ) (now : ℕ)
      → hset_items none none (bucket_of tokens now) ≡ ok (bucket_of tokens now)
  unfolding hset_items update assign str_eq
  items_bucket tokens now = refl

  update_bucket :
      (tokens new : ℤ) (last now : ℕ)
      → update (bucket_of tokens last) (bucket_of new now) ≡ bucket_of new now
  unfolding update assign str_eq
  update_bucket tokens new last now = refl

  pub stored-IsBucket :
      (key : Text) (tokens new : ℤ) (last now : ℕ) (b : Backend)
      → IsBucket key tokens last b
      → IsBucket key new now (stored key (dict (bucket_of new now)) b)
  stored-IsBucket key tokens new last now b h = record {
    valid =
        stored-IsValid key (dict (bucket_of new now)) b (fits_of_present key b h.bucket h.valid)
          h.valid;
    bucket = lookup-stored_self key (dict (bucket_of new now)) b h.valid.distinct;
  }

  pub expire-IsBucket :
      (key : Text) (tokens timeout : ℤ) (last : ℕ) (now : Real) (b : Backend)
      → IsBucket key tokens last b
      → IsBucket key tokens last (expire key timeout now b).1
  unfolding expire
  expire-IsBucket key tokens timeout last now b h = record {
    valid = unfold expire in expire-IsValid key timeout now b h.valid;
    bucket = h.bucket;
  }

  pub hset_bucket :
      (key : Text) (tokens new : ℤ) (last now : ℕ) (b : Backend)
      → IsBucket key tokens last b
      → hset key none none (bucket_of new now) b ≡ (ok tt, stored key (dict (bucket_of new now)) b)
  hset_bucket key tokens new last now b h =
      hset-update key none none (bucket_of new now) b (items_bucket new now) h.bucket
      ∙ rw update_bucket refl

  -- the timeout of the bucket, twice the time that it takes to fill up
  abbrev pub fill_timeout : Real → ℕ → ℤ
  fill_timeout rate capacity = ceil (times (of_int (pos 2)) (over (of_int (pos capacity)) rate))

  -- A request that finds a live bucket: its answer, and the bucket that it leaves.
  pub do_limit-IsBucket :
      (key : Text) (rate : Real) (capacity cost now : ℕ) (t : ℕ → Real) (tokens : ℤ) (last : ℕ)
      (b : Backend)
      → IsBucket key tokens last b
      → has_expired key (t 0) b ≡ false
      → let found = refilled rate capacity now (bucket_of tokens last) in
        let limited = ltb_ℤ found (pos cost) in
        let left = found -ℤ pos cost in
        let done = do_limit key rate capacity cost now t b in
        (done.0 ≡ ok (if limited then (true, found) else (false, left)))
        × IsBucket key (if limited then tokens else left) (if limited then last else now) done.1
  unfolding do_limit expire
  do_limit-IsBucket key rate capacity cost now t tokens last b h live =
      let found = refilled rate capacity now (bucket_of tokens last) in
      let b' = stored key (dict (bucket_of tokens last)) b in
      let h' = stored-IsBucket key tokens tokens last last b h in
      elim (Bool-cases (ltb_ℤ found (pos cost))) [
        | inl short ↦
            rw (hgetall_kept key (bucket_of tokens last) (t 0) b h.bucket live)
              (rw short (refl, h'))
        | inr enough ↦ rw (hgetall_kept key (bucket_of tokens last) (t 0) b h.bucket live) (
            rw (enough, hset_bucket key tokens (found -ℤ pos cost) last now b' h')
              (
                refl,
                expire-IsBucket key (found -ℤ pos cost) (fill_timeout rate capacity) now (t 1)
                    (stored key (dict (bucket_of (found -ℤ pos cost) now)) b')
                    (stored-IsBucket key tokens (found -ℤ pos cost) last now b' h'),
              ))
      ]

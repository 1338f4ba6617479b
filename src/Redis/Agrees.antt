-- ===== src/Redis/Agrees.antt =====
-- The token bucket on a Redis server and on the memory store.
use throttled_py.Action.{ok}
use throttled_py.Common.{
  ℕ, ◌≡◌, refl, sym, ◌∙◌, true, false, some, Bool-cases, inl, inr, if◌then◌else◌,
}
use throttled_py.Common.Float.{Float, Real}
use throttled_py.Common.Int.{ℤ, pos, ltb_ℤ, ◌≤ℤ◌, ◌+ℤ◌, ◌-ℤ◌, min_ℤ}
use throttled_py.Common.Text.{Text}
use throttled_py.Limiter.TokenBucket.{do_limit}
use throttled_py.Limiter.TokenBucket.Bucket.{IsBucket, refilled_bucket, do_limit-IsBucket}
use throttled_py.Memory.{Backend, has_expired}
use throttled_py.Redis.{Server, read_bucket, moved, bucket_ttl, token_script}
use throttled_py.Redis.Laws.{IsRedis}

module _ ⦃F : Float⦄ {S : Type 0} (server : Server S) where
  -- The server holds a bucket under the key.
  abbrev pub HasBucket : Text → ℤ → ℕ → S → Type 0
  HasBucket key tokens last s = server.hmget key s ≡ (some tokens, some (pos last))

  script-HasBucket :
      (key : Text) (rate : Real) (capacity cost now : ℕ) (tokens : ℤ) (last : ℕ) (s : S)
      → IsRedis server
      → pos 1 ≤ℤ bucket_ttl rate capacity
      → HasBucket key tokens last s
      → let found = min_ℤ (pos capacity) (tokens +ℤ moved rate now (pos last)) in
        let limited = ltb_ℤ found (pos cost) in
        let left = found -ℤ pos cost in
        let done = token_script server key rate capacity cost now s in
        (done.0 ≡ ok (if limited then (true, found) else (false, left)))
        × HasBucket key (if limited then tokens else left) (if limited then last else now) done.1
  unfolding token_script read_bucket
  script-HasBucket key rate capacity cost now tokens last s laws lives h =
      let found = min_ℤ (pos capacity) (tokens +ℤ moved rate now (pos last)) in
      elim (Bool-cases (ltb_ℤ found (pos cost))) [
        | inl short ↦ rw h (rw short (refl, h))
        | inr enough ↦ rw h (
            rw enough (
              refl,
              laws.hmget-expire key (bucket_ttl rate capacity)
                    (server.hset key (found -ℤ pos cost) now s) lives
                  ∙ laws.hmget-hset key (found -ℤ pos cost) now s,
            ))
      ]

  -- On a server whose expiry is not due, and a memory store whose bucket is live, with the same bucket
  -- on both and a positive timeout, the script and the memory action of the token bucket give the same
  -- answer, and leave the same bucket on both.
  pub token_script-refines :
      (key : Text) (rate : Real) (capacity cost now : ℕ) (t : ℕ → Real) (tokens : ℤ) (last : ℕ)
      (s : S) (b : Backend)
      → IsRedis server
      → pos 1 ≤ℤ bucket_ttl rate capacity
      → HasBucket key tokens last s
      → IsBucket key tokens last b
      → has_expired key (t 0) b ≡ false
      → let script = token_script server key rate capacity cost now s in
        let action = do_limit key rate capacity cost now t b in
        (script.0 ≡ action.0)
        × ((tokens' : ℤ) × (last' : ℕ) × HasBucket key tokens' last' script.1
            × IsBucket key tokens' last' action.1)
  token_script-refines key rate capacity cost now t tokens last s b laws lives on_server in_memory
        live =
      let found = min_ℤ (pos capacity) (tokens +ℤ moved rate now (pos last)) in
      let limited = ltb_ℤ found (pos cost) in
      let (answer, left) =
        script-HasBucket key rate capacity cost now tokens last s laws lives on_server in
      let (answer', left') =
        rw (refilled_bucket rate capacity now last tokens) at
          (do_limit-IsBucket key rate capacity cost now t tokens last b in_memory live) in
      (
        answer ∙ sym answer',
        (if limited then tokens else found -ℤ pos cost, if limited then last else now, left, left'),
      )

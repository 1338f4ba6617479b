-- ===== src/Redis/Laws.antt =====
-- What the documentation of Redis says of the commands on the hash of a bucket.
use throttled_py.Common.{ℕ, ◌≡◌, none, some}
use throttled_py.Common.Float.{Float}
use throttled_py.Common.Int.{ℤ, pos, ◌≤ℤ◌}
use throttled_py.Common.Text.{Text}
use throttled_py.Redis.{Server}

module _ ⦃F : Float⦄ where
  pub record IsRedis {S : Type 0} (server : Server S) : Type 0 where
    -- HMGET reads what HSET wrote
    pub hmget-hset :
        (key : Text) (tokens : ℤ) (last : ℕ) (s : S)
        → server.hmget key (server.hset key tokens last s) ≡ (some tokens, some (pos last))
    -- EXPIRE with a positive timeout keeps the hash for now
    pub hmget-expire :
        (key : Text) (timeout : ℤ) (s : S)
        → pos 1 ≤ℤ timeout
        → server.hmget key (server.expire key timeout s) ≡ server.hmget key s
    -- EXPIRE with another timeout deletes the key
    pub hmget-expire_now :
        (key : Text) (timeout : ℤ) (s : S)
        → timeout ≤ℤ pos 0
        → server.hmget key (server.expire key timeout s) ≡ (none, none)

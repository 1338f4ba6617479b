-- ===== src/Redis.antt =====
-- throttled/rate_limiter, the actions of the Redis store: the scripts that the server runs, and the
-- commands of the fixed-window action. The server is a parameter, by the commands that they call.
pub mod Laws
pub mod Agrees
pub mod Expired
pub mod Store
pub mod Nodes
pub mod Options
pub mod Pools
use throttled_py.Action.{Exc, foreign, Outcome, ok, raised, Action, pure, raise, ◌>>=◌, ◌>>◌}
use throttled_py.Common.{
  ℕ, ◌*◌, ◌==◌, Bool, true, false, not, ◌&&◌, Option, none, some, if◌then◌else◌,
}
use throttled_py.Common.Float.{
  Float, Real, of_int, zero_f, plus, minus, times, over, le, lt, max_f, abs_f, floor, ceil, Num,
  int, float, to_int, to_float,
}
use throttled_py.Common.Int.{ℤ, pos, negsuc, ◌+ℤ◌, ◌-ℤ◌, max_ℤ, min_ℤ, ltb_ℤ, leb_ℤ}
use throttled_py.Common.Text.{Text}
use throttled_py.Limiter.Gcra.{Answer}
use throttled_py.Limiter.SlidingWindow.{previous_proportion}

module _ ⦃F : Float⦄ where
  -- A server with databases `S`: the commands, on the values that the scripts read and write. The
  -- hash of a bucket has the fields `tokens` and `last_refreshed`.
  pub record Server (S : Type 0) : Type 0 where
    pub get : Text → S → Option Num
    pub set_ex : Text → Num → ℤ → S → S
    pub incrby : Text → ℕ → S → ℤ × S
    pub hmget : Text → S → Option ℤ × Option ℤ
    pub hset : Text → ℤ → ℕ → S → S
    pub expire : Text → ℤ → S → S

-- Arithmetic on the `nil` that `tonumber` gives for a missing field is an error of the script.
abbrev pub script_error : Exc
script_error = foreign 0

-- A bucket as it was read: without its first field, that of a key that was never used.
unfoldable pub read_bucket : ℤ → ℕ → Option ℤ × Option ℤ → Outcome (ℤ × ℤ)
read_bucket default now (none, last) = ok (default, pos now)
read_bucket default now (some tokens, some last) = ok (tokens, last)
read_bucket default now (some tokens, none) = raised script_error

module _ ⦃F : Float⦄ where
  -- `math.max(0, now - last_refreshed)`, times the rate
  abbrev pub moved : Real → ℕ → ℤ → ℤ
  moved rate now last = floor (times (of_int (max_ℤ (pos 0) (pos now -ℤ last))) rate)

  -- `math.floor(2 * fill_time)`
  unfoldable pub bucket_ttl : Real → ℕ → ℤ
  bucket_ttl rate capacity = floor (times (of_int (pos 2)) (over (of_int (pos capacity)) rate))

module _ ⦃F : Float⦄ {S : Type 0} (server : Server S) where
  abbrev bucket : Text → ℤ → ℕ → Action S (ℤ × ℤ)
  bucket key default now s = (read_bucket default now (server.hmget key s), s)

  -- A command that only writes.
  abbrev write : (S → S) → Action S (Unit {0})
  write command s = (ok tt, command s)

  -- the script of the token bucket; `now` is the second that TIME returns
  unfoldable pub token_script : Text → Real → ℕ → ℕ → ℕ → Action S (Bool × ℤ)
  unfolding read_bucket bucket_ttl
  token_script key rate capacity cost now = do
    (last_tokens, last) ← bucket key (pos capacity) now
    let tokens = min_ℤ (pos capacity) (last_tokens +ℤ moved rate now last)
    if ltb_ℤ tokens (pos cost) then pure (true, tokens) else do
      write (server.hset key (tokens -ℤ pos cost) now)
      write (server.expire key (bucket_ttl rate capacity))
      pure (false, tokens -ℤ pos cost)

  -- the script of the leaking bucket
  unfoldable pub leaking_script : Text → Real → ℕ → ℕ → ℕ → Action S (Bool × ℤ)
  unfolding read_bucket bucket_ttl
  leaking_script key rate capacity cost now = do
    (last_tokens, last) ← bucket key (pos 0) now
    let tokens = max_ℤ (pos 0) (last_tokens -ℤ moved rate now last)
    if ltb_ℤ (pos capacity) (tokens +ℤ pos cost) then pure (true, pos capacity -ℤ tokens) else do
      write (server.expire key (bucket_ttl rate capacity))
      write (server.hset key (tokens +ℤ pos cost) now)
      pure (false, pos capacity -ℤ (tokens +ℤ pos cost))

  -- the count that a GET returns, 0 for a missing one
  unfoldable pub count_or_zero : Option Num → ℤ
  unfolding to_int
  count_or_zero none = pos 0
  count_or_zero (some raw) = to_int raw

  -- the write of the sliding window, by what the first GET returned
  unfoldable pub count_in_window : Text → ℕ → ℕ → Option Num → S → S
  count_in_window key period cost none s = server.set_ex key (int (pos cost)) (pos (3 * period)) s
  count_in_window key period cost (some raw) s = (server.incrby key cost s).1

  -- the script of the sliding window
  unfoldable pub sliding_script : Text → Text → ℕ → ℕ → ℕ → ℕ → Action S (Bool × ℤ × Real)
  unfolding count_or_zero count_in_window previous_proportion
  sliding_script current_key previous_key period limit cost now_ms s =
      let raw = server.get current_key s in
      let proportion = previous_proportion period now_ms in
      let previous =
        floor (times proportion (of_int (count_or_zero (server.get previous_key s)))) in
      let used = previous +ℤ count_or_zero raw +ℤ pos cost in
      if ltb_ℤ (pos limit) used && not (cost == 0)
      then (
        ok (
          true,
          used,
          if leb_ℤ (pos cost) previous
              then over (times (times proportion (of_int (pos period))) (of_int (pos cost)))
                  (of_int previous)
              else times proportion (of_int (pos period)),
        ),
        s,
      )
      else (ok (false, used, zero_f), count_in_window current_key period cost raw s)

  -- the action of the fixed window: two commands
  unfoldable pub fixed_do : Text → ℕ → ℕ → ℕ → Action S (Bool × ℤ)
  fixed_do key period limit cost s =
      let (current, counted) = server.incrby key cost s in
      let timed =
        if leb_ℤ current (pos cost) && leb_ℤ (pos cost) current
        then server.expire key (pos period) counted
        else counted in
      (ok (ltb_ℤ (pos limit) current && not (cost == 0), current), timed)

  unfoldable pub tat_or : Real → Option Num → Real
  unfolding to_float
  tat_or now none = now
  tat_or now (some tat) = to_float tat

  -- the script of GCRA; `now` is the time since the start of 2025 that the script makes of TIME
  unfoldable pub gcra_script : Text → Real → ℕ → ℕ → Real → Action S Answer
  unfolding tat_or
  gcra_script key emission_interval capacity cost now s =
      let last_tat = tat_or now (server.get key s) in
      let tat = plus (max_f now last_tat) (times (of_int (pos cost)) emission_interval) in
      let time_from_tat = minus now (max_f now last_tat) in
      let free = pos capacity -ℤ pos cost in
      let time_elapsed = plus time_from_tat (times (of_int free) emission_interval) in
      let remaining = free +ℤ floor (over time_from_tat emission_interval) in
      let reset_after = minus tat now in
      if ltb_ℤ remaining (pos 0)
      then (
        ok (record {
          limited = true;
          remaining = min_ℤ (pos capacity) (pos cost +ℤ remaining);
          reset_after = max_f zero_f (minus last_tat now);
          retry_after = times time_elapsed (of_int (negsuc 0));
        }),
        s,
      )
      else (
        ok (record {
          limited = false;
          remaining = remaining;
          reset_after = reset_after;
          retry_after = zero_f;
        }),
        if lt zero_f reset_after then server.set_ex key (float tat) (ceil reset_after) s else s,
      )

  -- the script of GCRA's peek
  unfoldable pub gcra_peek_script : Text → Real → ℕ → Real → Action S Answer
  unfolding tat_or
  gcra_peek_script key emission_interval capacity now s =
      let tat = tat_or now (server.get key s) in
      let time_from_tat = minus now (max_f tat now) in
      let time_elapsed = plus time_from_tat (times (of_int (pos capacity)) emission_interval) in
      let reset_after = max_f zero_f (minus tat now) in
      let remaining = pos capacity +ℤ floor (over time_from_tat emission_interval) in
      (
        ok (
            if ltb_ℤ remaining (pos 1)
            then record {
              limited = true;
              remaining = pos 0;
              reset_after = reset_after;
              retry_after = abs_f time_elapsed;
            }
            else record {
              limited = false;
              remaining = remaining;
              reset_after = reset_after;
              retry_after = zero_f;
            }),
        s,
      )

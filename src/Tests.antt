-- ===== src/Tests.antt =====
-- Runs of the model on concrete inputs, in fixed-point arithmetic, and each theorem at such an input.
mod Chains
mod Tasks
mod Servers
mod Windows
mod Addresses
mod Objects
mod Texts
use throttled_py.Action.{ok, ok-injective}
use throttled_py.Common.{
  ℕ, ◌+◌, ◌*◌, ◌/◌, ◌≤◌, ◌≡◌, refl, true, not, inr, none, some, List, [], ◌∷◌, arith, if◌then◌else◌,
}
use throttled_py.Common.Fixed.{fixed}
use throttled_py.Common.Float.{of_int, plus, le, Num, int, float, to_int}
use throttled_py.Common.Int.{ℤ, pos, negsuc, ◌+ℤ◌, ◌-ℤ◌, ◌≤ℤ◌, ltb_ℤ, min_ℤ, max_ℤ}
use throttled_py.Common.Text.{Text, codes, str_eq, decimal}
use throttled_py.Dict
use throttled_py.Limiter.FixedWindow
use throttled_py.Limiter.FixedWindow.Bound.{admitted-le-limit}
use throttled_py.Limiter.Gcra
use throttled_py.Limiter.Gcra.Peek.{limit-peek_gcra}
use throttled_py.Limiter.Gcra.Refused.{limit-refused}
use throttled_py.Limiter.LeakingBucket
use throttled_py.Limiter.LeakingBucket.Peek.{limit-peek_leaking}
use throttled_py.Limiter.Periods.{period_key-separate, window_key-separate}
use throttled_py.Limiter.Runs.{Request, admitted}
use throttled_py.Limiter.TokenBucket
use throttled_py.Limiter.TokenBucket.{bucket_of, to_result}
use throttled_py.Limiter.TokenBucket.Bound.{earned, admitted-le-earned}
use throttled_py.Limiter.TokenBucket.Clocks.{InStep}
use throttled_py.Limiter.TokenBucket.Level.{IsLevel, limit-IsLevel}
use throttled_py.Limiter.TokenBucket.Missing.{IsAbsent}
use throttled_py.Limiter.TokenBucket.Bucket.{IsBucket}
use throttled_py.Limiter.TokenBucket.Peek.{decide, limit-peek}
use throttled_py.Memory
use throttled_py.Memory.{Backend, exists}
use throttled_py.Memory.Calls.{Call, calls, calls-IsValid}
use throttled_py.Memory.Effects.{IsValid}
use throttled_py.Memory.Invariant.{init-IsValid}
use throttled_py.Memory.Reads.{get-set}
use throttled_py.Quota.{
  Quota, Clock, RateLimiter, RateLimitResult, RateLimitState, make_quota, prepare_key,
}

-- what the program's functions compute with
program : Unit {0}
unfolding Dict.lookup Dict.contains Dict.assign Dict.erase Dict.update Dict.move_to_end
    Dict.popitem_first str_eq decimal ◌+ℤ◌ ◌-ℤ◌ min_ℤ max_ℤ to_int Memory.init Memory.get Memory.set
    Memory.hset Memory.hgetall Memory.delete Memory.expire make_quota FixedWindow.limit
    FixedWindow.peek TokenBucket.limit TokenBucket.peek
program = tt

-- the clock that reads the given seconds
abbrev at : ℕ → Clock
at n = record { now_sec = n; now_ms = n * 1000; now_mono_f = λ i. of_int (pos (n + i)) }

abbrev a : Text
a = codes "a"

abbrev empty : Backend
empty = record { max_size = 2; expire_info = []; client = [] }

empty-IsValid : IsValid empty
empty-IsValid = record {
  positive = omega arith;
  bounded = omega arith;
  distinct = tt;
  distinct_expiry = tt;
}

-- 2 requests in 10 seconds
abbrev quota : Quota
quota = record {
  rate = record { period = 10_000_000; limit = 2 };
  burst = 2;
  period_sec = 10;
  emission_interval = of_int (pos 5);
  fill_rate = pos 200;
}

quota_runs : make_quota (record { period = 10_000_000; limit = 2 }) 2 ≡ ok quota
unfolding program
quota_runs = refl

abbrev limiter : RateLimiter
limiter = record { quota = quota; key_prefix = codes "throttled:v1:fixed_window:" }

abbrev request : ℕ → Request
request n = record { cost = 1; clock = at n }

abbrev script : List Call
script =
    Call.set a (int (pos 1)) (pos 5) (of_int (pos 0))
    ∷ Call.hset (codes "b") none none ((codes "tokens", int (pos 3)) ∷ [])
    ∷ Call.get (codes "b") (of_int (pos 1))
    ∷ Call.set (codes "c") (int (pos 2)) (pos 5) (of_int (pos 2))
    ∷ Call.get a (of_int (pos 9))
    ∷ []

calls-IsValid_example : IsValid (calls script empty)
calls-IsValid_example = calls-IsValid script empty empty-IsValid

get-set_example :
    let b' = (Memory.set a (int (pos 1)) (pos 5) (of_int (pos 0)) empty).1 in
    let due = le (plus (of_int (pos 0)) (of_int (pos 5))) (of_int (pos 4)) in
    ((Memory.get a (of_int (pos 4)) b').0 ≡ ok (if due then none else some (int (pos 1))))
    × (exists a (Memory.get a (of_int (pos 4)) b').1 ≡ not due)
get-set_example =
    get-set a (int (pos 1)) (pos 5) (of_int (pos 0)) (of_int (pos 4)) empty empty-IsValid

admitted-le-limit_example :
    admitted (FixedWindow.limit limiter) a (request 1 ∷ request 2 ∷ request 3 ∷ []) empty ≤ 2
unfolding program
admitted-le-limit_example =
    admitted-le-limit limiter a (request 1) (request 2 ∷ request 3 ∷ []) empty empty-IsValid refl
      (refl, refl, (refl, refl, tt))

-- a store with a bucket of 2 tokens, refreshed at second 0
abbrev with_bucket : Backend
with_bucket = record {
  max_size = 2;
  expire_info = [];
  client = (prepare_key limiter a, Memory.dict (bucket_of (pos 2) 0)) ∷ [];
}

with_bucket-IsBucket : IsBucket (prepare_key limiter a) (pos 2) 0 with_bucket
unfolding program
with_bucket-IsBucket = record {
  valid = record {
    positive = omega arith;
    bounded = omega arith;
    distinct = (refl, tt);
    distinct_expiry = tt;
  };
  bucket = refl;
}

with_bucket-IsLevel : IsLevel limiter a with_bucket
with_bucket-IsLevel = inr (record {
  tokens = pos 2;
  last = 0;
  bucket = with_bucket-IsBucket;
  nonneg = omega arith;
  capped = omega arith;
})

empty-IsAbsent : IsAbsent (prepare_key limiter a) empty
unfolding program
empty-IsAbsent = record { valid = empty-IsValid; absent = refl }

-- Two readings of both clocks of `at` keep step.
at-InSeconds :
    (m n : ℕ) (d : ℤ)
    → le (plus (of_int (pos (m + 1))) (of_int d)) (of_int (pos n)) ≡ true
    → pos m +ℤ d ≤ℤ pos n
unfolding ◌+ℤ◌
at-InSeconds m n d h = ground arith

-- The bucket of the request at 1 is expired at 30.
abbrev spread : List Request
spread = request 1 ∷ request 2 ∷ request 30 ∷ []

spread-InStep : InStep spread
spread-InStep = (
  (refl, (refl, tt)),
  (at-InSeconds 1 2, (at-InSeconds 1 30, tt)),
  ((refl, tt), (at-InSeconds 2 30, tt), (tt, tt, tt)),
)

admitted-le-earned_example :
    pos (admitted (TokenBucket.limit limiter) a spread empty)
    ≤ℤ pos 2 +ℤ earned limiter a none spread empty
admitted-le-earned_example =
    admitted-le-earned limiter a spread empty empty-IsAbsent spread-InStep (refl, omega arith)

limit-IsLevel_example :
    let done = TokenBucket.limit limiter a 1 (at 3) with_bucket in
    IsLevel limiter a done.1
    × ((x : RateLimitResult) × (done.0 ≡ ok x)
        × ((pos 0 ≤ℤ x.state.remaining) × (x.state.remaining ≤ℤ pos 2)))
limit-IsLevel_example = limit-IsLevel limiter a 1 (at 3) with_bucket refl with_bucket-IsLevel

limit-peek_example :
    (TokenBucket.limit limiter a 1 (at 3) with_bucket).0
    ≡ ok (to_result limiter 1 (decide (pos 2) 1))
unfolding program
limit-peek_example = limit-peek limiter a 1 (at 3) with_bucket with_bucket-IsBucket.valid refl

abbrev seen : RateLimitState
seen = record {
  limit = 2;
  remaining = pos 2;
  reset_after = float (of_int (pos 0));
  retry_after = float (of_int (pos 0));
}

-- a request of cost 3, which waits for 5 seconds
abbrev asked : RateLimitResult
asked = record { limited = true; state = record seen { retry_after = float (of_int (pos 5)) } }

gcra_runs :
    ((Gcra.peek limiter a (at 3) empty).0 ≡ ok seen)
    × ((Gcra.limit limiter a 3 (at 3) empty).0 ≡ ok asked)
unfolding program Gcra.limit Gcra.peek
gcra_runs = (refl, refl)

limit-peek_gcra_example : true ≡ ltb_ℤ (pos 2) (pos 3)
limit-peek_gcra_example =
    limit-peek_gcra limiter a 3 (at 3) empty seen asked (omega arith) gcra_runs.0 gcra_runs.1

limit-refused_example :
    (Gcra.limit limiter a 3 (at 3) empty).1
    ≡ (Memory.get (prepare_key limiter a) (of_int (pos 4)) empty).1
limit-refused_example = limit-refused limiter a 3 (at 3) empty asked gcra_runs.1 refl

period_key-separate_example : (a ≡ a) × (23 / 10 ≡ 27 / 10)
period_key-separate_example =
    period_key-separate limiter a a 23 27 (unfold FixedWindow.period_key decimal in refl)

window_key-separate_example : (a ≡ a) × (negsuc 0 ≡ negsuc 0)
window_key-separate_example = window_key-separate limiter a a (negsuc 0) (negsuc 0) refl

abbrev level : RateLimitState
level = record {
  limit = 2;
  remaining = pos 0;
  reset_after = int (pos 10);
  retry_after = int (pos 0);
}

leaking_runs : (LeakingBucket.peek limiter a (at 3) with_bucket).0 ≡ ok level
unfolding program LeakingBucket.peek
leaking_runs = refl

forward :
    (kv : Dict.Dict Num)
    → (Memory.hgetall (prepare_key limiter a) (of_int (pos 3)) with_bucket).0 ≡ ok kv
    → pos 0 ≤ℤ LeakingBucket.elapsed 3 kv
unfolding program LeakingBucket.elapsed
forward kv read =
    let same : bucket_of (pos 2) 0 ≡ kv = ok-injective read in rw (← same) (omega arith)

limit-peek_leaking_example :
    (LeakingBucket.limit limiter a 1 (at 3) with_bucket).0
    ≡ ok (LeakingBucket.to_result limiter 1 (decide (pos 0) 1))
limit-peek_leaking_example =
    limit-peek_leaking limiter a 1 (at 3) with_bucket level with_bucket-IsBucket.valid forward
      leaking_runs

-- ===== src/Tests/Tasks.antt =====
-- Tasks of the asynchronous package on concrete inputs.
use throttled_py.Action.{Outcome, ok, raised}
use throttled_py.Asyncio.Coro.{
  Ending, returned, failed, cancelled, Coro, done, does, suspend, alone,
}
use throttled_py.Asyncio.Coro.Count.{total}
use throttled_py.Asyncio.Coro.Tasks.{schedule, tasks}
use throttled_py.Asyncio.Coro.Twin.{result_of}
use throttled_py.Asyncio.Coro.Under.{under}
use throttled_py.Asyncio.Hooks.{build_hook_chain}
use throttled_py.Asyncio.Hooks
use throttled_py.Asyncio.Hooks.Cancelled.{async_chain-cancelled}
use throttled_py.Asyncio.Limiters.{async_limit_of, async_peek_of}
use throttled_py.Asyncio.Limiters.Twins.{async_limiters-refine}
use throttled_py.Asyncio.Throttled
use throttled_py.Asyncio.Throttled.{AsyncThrottled}
use throttled_py.Asyncio.Throttled.Concurrent.{Call, starts, count, paid, concurrent_limits-granted}
use throttled_py.Asyncio.Throttled.Refines.{twin, async_limit-refines}
use throttled_py.Common.{ℕ, ◌+◌, ◌*◌, ◌≡◌, refl, Bool, true, false, none, some, List, [], ◌∷◌}
use throttled_py.Common.Fixed.{fixed}
use throttled_py.Common.Float.{of_int, int}
use throttled_py.Common.Int.{pos, negsuc, ◌+ℤ◌, ◌-ℤ◌, min_ℤ, max_ℤ}
use throttled_py.Common.Text.{codes, str_eq}
use throttled_py.Common.Unicode.{ascii}
use throttled_py.Hooks.{HookContext, Script, returns, raises, calls, reads, writes, Hook}
use throttled_py.Dict
use throttled_py.Limiter.TokenBucket
use throttled_py.Memory
use throttled_py.Memory.{Backend}
use throttled_py.Quota.{Quota, Clock, RateLimiter, RateLimitResult}
use throttled_py.Registry.Builtin.{token_bucket, sliding_window, class_of, limit_of, peek_of}
use throttled_py.Throttled.{Throttled, World, Env, limit}
use throttled_py.Throttled.Grants.{grants}

abbrev at : ℕ → Clock
at n = record { now_sec = n; now_ms = n * 1000; now_mono_f = λ i. of_int (pos (n + i)) }

-- 2 requests in 10 seconds
abbrev quota : Quota
quota = record {
  rate = record { period = 10_000_000; limit = 2 };
  burst = 2;
  period_sec = 10;
  emission_interval = of_int (pos 5);
  fill_rate = pos 200;
}

abbrev answer : Outcome RateLimitResult → Script ℕ RateLimitResult
answer (ok r) = returns r
answer (raised e) = raises e

abbrev metric : Hook ℕ RateLimitResult
metric c = reads (λ h. writes (h + 1) (calls answer))

abbrev throttled : Throttled ℕ
throttled = record {
  key = some (codes "k");
  timeout = int (negsuc 0);
  quota = quota;
  limiter_cls = class_of token_bucket;
  key_prefix = none;
  hooks = metric ∷ [];
  cost = 1;
}

abbrev backend : Backend
backend = record { max_size = 2; expire_info = []; client = [] }

abbrev world : World
world = record { limiter = none; backend = backend; answers = []; sleeps = []; unfinished = false }

abbrev env : Env
env = record {
  clock = at 1;
  start_time = of_int (pos 1);
  rounds =
      record {
        wait_start = of_int (pos 1);
        readings = of_int (pos 2) ∷ of_int (pos 4) ∷ [];
        clock = at 4;
        now = of_int (pos 4);
      }
      ∷ [];
}

async_limit-refines_example :
    alone (Throttled.limit (twin throttled) none (int (pos 1)) (some (int (pos 2))) env) (world, 0)
    ≡ result_of (limit throttled none (int (pos 1)) (some (int (pos 2))) env (world, 0))
async_limit-refines_example =
    async_limit-refines throttled none (int (pos 1)) (some (int (pos 2))) env (world, 0)

abbrev bare : AsyncThrottled ℕ
bare = record { fields = throttled; hooks = [] }

abbrev one : Call
one = record { key = none; cost = int (pos 1); timeout = none; env = env }

abbrev three : List Call
three = one ∷ one ∷ one ∷ []

-- The second task is cancelled at the lock; the others take turns.
abbrev turns : List (ℕ × Bool)
turns = (0, false) ∷ (1, false) ∷ (2, false) ∷ (1, true) ∷ (2, false) ∷ (0, false) ∷ []

concurrent_limits-granted_example :
    let end = schedule turns (tasks (starts bare three)) (world, 0) in
    grants end.1.0 ≡ 0 + total count paid end.0
concurrent_limits-granted_example = concurrent_limits-granted bare three turns (world, 0) refl

two_granted : grants (schedule turns (tasks (starts bare three)) (world, 0)).1.0 ≡ 2
unfolding schedule Throttled.limit class_of str_eq Dict.assign TokenBucket.limit Memory.hgetall
    Dict.lookup Dict.contains min_ℤ ◌+ℤ◌ max_ℤ ◌-ℤ◌ Memory.hset Dict.move_to_end Memory.expire
    Dict.erase Dict.update
two_granted = refl

abbrev limiter : RateLimiter
limiter = record { quota = quota; key_prefix = codes "throttled:v1:sliding_window:" }

async_limiters-refine_example :
    (alone (async_limit_of sliding_window limiter (codes "k") 1 (at 1)) backend
      ≡ result_of (limit_of sliding_window limiter (codes "k") 1 (at 1) backend))
    × (alone (async_peek_of sliding_window limiter (codes "k") (at 1)) backend
        ≡ result_of (peek_of sliding_window limiter (codes "k") (at 1) backend))
async_limiters-refine_example =
    async_limiters-refine sliding_window limiter (codes "k") 1 (at 1) backend

abbrev context : HookContext
context = record {
  key = codes "k";
  cost = 1;
  algorithm = codes "token_bucket";
  store_type = codes "memory";
}

-- a hook that answers an exception with a result of its own
abbrev relay : Ending ℕ → Hooks.Script ℕ ℕ
relay (returned r) = Hooks.ends (returned r)
relay (failed e) = Hooks.ends (returned 0)
relay cancelled = Hooks.ends cancelled

abbrev counting : Hooks.Hook ℕ ℕ
counting c = Hooks.reads (λ h. Hooks.writes (h + 1) (Hooks.calls relay))

-- a check that is suspended once before its effect and once behind it
abbrev check : Coro ℕ ℕ
check = suspend (does (λ s. s + 1) (λ s. suspend (done (returned s))))

stopped : under (false ∷ true ∷ true ∷ []) check 5 ≡ (cancelled, true ∷ [], 6)
unfolding under
stopped = refl

async_chain-cancelled_example :
    (h : ℕ) × (under
        (false ∷ true ∷ true ∷ [])
        (build_hook_chain (counting ∷ counting ∷ []) check context)
        (5, 0)
      ≡ (cancelled, true ∷ [], (6, h)))
async_chain-cancelled_example =
    async_chain-cancelled (counting ∷ counting ∷ []) check context (false ∷ true ∷ true ∷ [])
      (true ∷ []) 5 6 0 (λ h. refl, (λ h. refl, tt)) stopped

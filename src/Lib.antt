-- ===== src/Lib.antt =====
-- throttled-py: rate limiters over a key-value store.
--
-- The program checks requests of a key against a quota. `throttled.Throttled` validates the key, the
-- cost and the timeout, makes a rate limiter (`throttled/rate_limiter`) from the class that the
-- registry has for its type, and asks it, inside a chain of hooks, once or until a timeout; the
-- limiter keeps the state of the key in a store, in memory or on a Redis server. `throttled.asyncio` has
-- the same classes with coroutines; the integrations put a limiter around the views of a web framework.
-- The development covers both packages from the object that a user calls down to the memory store, the
-- scripts for Redis, and the integrations.
--
-- The parts and their files:
--   Action, Common   what the other files share: `raise` and mutable objects (Action), Python's int
--                    (Common/Int), float (Common/Float), str (Common/Text, Common/Unicode), numerals
--                    (Common/Decimal), texts with a separator (Common/Split)
--   Dict             dict and OrderedDict, with the laws of their methods (Dict/Laws)
--   Memory           throttled/store/memory.py, class BaseMemoryStoreBackend: `get`, `set`, `hset`,
--                    `hgetall`, `expire`, `delete`, `ttl` and the eviction of the oldest key. What
--                    the calls do to a valid store (Memory/Effects), that they keep it valid
--                    (Memory/Invariant, Memory/Calls), what is read back (Memory/Reads,
--                    Memory/Hashes), what a read leaves of other keys (Memory/Others)
--   Store            throttled/store/base.py, wraps.py and class MemoryStore of memory.py: the
--                    methods of a store, and how their exceptions are wrapped (Store/Wrapped)
--   Quota            throttled/rate_limiter/base.py: quota, state, result, storage keys
--   QuotaParser      throttled/rate_limiter/quota_parser.py: quota expressions; the regular expression
--                    is QuotaParser/Pattern. What they can be parsed to (QuotaParser/Rules), and that
--                    rules that are written out are read back (QuotaParser/Scan, RoundTrip, Rendered)
--   Limiter          throttled/rate_limiter: fixed_window.py (Limiter/FixedWindow), sliding_window.py
--                    (Limiter/SlidingWindow), token_bucket.py (Limiter/TokenBucket),
--                    leaking_bucket.py (Limiter/LeakingBucket), gcra.py (Limiter/Gcra); each has the
--                    `_do` of its memory action as `do_limit`, and `_limit` and `_peek` as `limit` and
--                    `peek`. Sequences of requests are in Limiter/Runs; what a peek tells is in
--                    TokenBucket/Peek, LeakingBucket/Peek and Gcra/Peek, what a refusal writes in
--                    Gcra/Refused, the keys of windows in Limiter/Periods, the wait of a refusal in
--                    FixedWindow/Recovers, the count of a refused request in SlidingWindow/Denied.
--   Registry         throttled/rate_limiter/base.py: the registry of limiter classes, the constructor
--                    of a limiter, its key prefix (Registry/Keys) and its atomic actions
--                    (Registry/Actions); the built-in classes and throttled/constants.py
--                    (Registry/Builtin)
--   Hooks            throttled/hooks.py: `build_hook_chain`. How often a chain runs its check
--                    (Hooks/Once), its exceptions (Hooks/Errors), hooks that observe
--                    (Hooks/Observers), what it keeps (Hooks/Keeps)
--   Throttled        throttled/throttled.py and throttled/_throttled/logic.py (Throttled/Logic): the
--                    constructor, `limit` with its retries (Throttled/Retries), `peek`, the decorator
--                    and the context manager. What a call is granted (Throttled/Grants, Admits,
--                    Guards), that it ends (Throttled/Ends, Finishes), how long it sleeps
--                    (Throttled/Sleeps), its checks (Throttled/Setup, Throttled/Arguments), its
--                    constructor (Throttled/Init)
--   Asyncio          throttled/asyncio: coroutines (Asyncio/Coro), tasks that one event loop resumes or
--                    cancels (Coro/Tasks, Coro/Under), what they count (Coro/Count); hooks.py
--                    (Asyncio/Hooks), store/memory.py (Asyncio/Store), rate_limiter
--                    (Asyncio/Limiters), throttled.py (Asyncio/Throttled). That undisturbed they do
--                    what their twins do is in Hooks/Twins, Limiters/Twins and Throttled/Refines;
--                    cancellations are in Hooks/Cancelled, concurrent calls in Throttled/Concurrent
--   Redis            throttled/rate_limiter: the `SCRIPTS` of the Redis actions, and `do` of the fixed
--                    window, on a server with documented laws (Redis/Laws). The token bucket beside
--                    that of the memory store is in Redis/Agrees, its timeout in Redis/Expired;
--                    throttled/store/redis.py, class RedisStore, and `format_value` of
--                    throttled/utils.py (Redis/Store); `_parse_nodes` (Redis/Nodes), and `_parse` with the
--                    hooks of both backends (Redis/Options);
--                    throttled/store/redis_pool.py, class ConnectionFactory (Redis/Pools)
--   Otel             throttled/contrib/otel/hook.py and its asynchronous twin (Otel/Recorded)
--   FastApi          throttled/asyncio/contrib/fastapi: limiter.py and key_funcs.py, its decorator
--                    (FastApi/Setup), middleware.py and exceptions.py (FastApi/Responses), what a
--                    wrapped route serves (FastApi/Served); headers.py and keys.py are those of Flask
--   Flask            throttled/contrib/flask: keys.py and key_funcs.py (Flask/Keys), headers.py, the
--                    `after_request` hook of limiter.py and the headers of exceptions.py
--                    (Flask/Headers), the wrapper of a view in limiter.py (Flask/View, Flask/Served), the
--                    limiter's construction and `init_app` (Flask/Setup)
--   Tests            runs on concrete inputs
--
-- A method is a function from the store to its outcome, a value or an exception, and the store that it
-- leaves. Each reading of a clock is an argument: the readings that one call makes are numbered in
-- their order. Python's int is ℤ; a cost, a limit, a period and a wall-clock time are natural numbers,
-- as the program documents them. Python's float is a parameter with the laws that rounding keeps, so
-- no result depends on exact arithmetic; the tests run in fixed-point arithmetic (Common/Fixed). The
-- database of Unicode is a parameter that is fixed on ASCII. An action of the memory store holds its
-- lock from start to end, so that each call is one step.
--
-- A hook is user code: it is a tree of its effects and of its calls of `call_next`, and the chain runs
-- it. The retries of `Throttled` read the clocks from a list of rounds, which is their fuel: a run
-- that needs more than it has is marked as unfinished, and a list with the readings at which the
-- timeout has elapsed is enough. A chain that runs the check again gives it the readings of the first
-- run once more, where the program reads its clocks anew; statements hold for all readings. The state of a `Throttled` also records what the limiter answered and
-- how long the retries slept; no code reads this record, only statements do.
--
-- A coroutine is a tree of its changes of the state and of its suspensions. It is suspended at
-- `asyncio.sleep` and, where another task may hold it, at the lock of the memory store; behind the lock
-- an action runs without suspension. A schedule is a list of turns, each of one task, which is resumed
-- or cancelled; `CancelledError` is no `Exception`, so that the code's handlers let it pass.
--
-- A Redis server is a parameter, by the commands that the scripts call; a script is one step. Numbers of
-- Lua are those of Python here: integers up to 2 ** 53, and floats before they are written in a reply.
--
-- Not modelled: the factories of connections to sentinels and clusters, of the redis package; what
-- `eval` and `EXPIRE` do inside the server; the timers and benchmarks of throttled/utils.py, which
-- measure and print; the text of exceptions, and logging; integers that `int` refuses to read for their
-- length, or that are out of the range of a float.
pub mod Common
pub mod Action
pub mod Dict
pub mod Memory
pub mod Quota
pub mod Limiter
pub mod Hooks
pub mod Store
pub mod Registry
pub mod QuotaParser
pub mod Redis
pub mod Throttled
pub mod Asyncio
pub mod Flask
pub mod FastApi
pub mod Otel
mod Tests

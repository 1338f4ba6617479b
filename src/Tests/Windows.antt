-- ===== src/Tests/Windows.antt =====
-- The window limiters on concrete inputs.
use throttled_py.Action.{ok}
use throttled_py.Common.{ℕ, ◌+◌, ◌*◌, ◌≡◌, refl, false, [], arith}
use throttled_py.Common.Fixed.{fixed}
use throttled_py.Common.Float.{of_int, plus}
use throttled_py.Common.Int.{pos, ◌+ℤ◌, ◌-ℤ◌, max_ℤ}
use throttled_py.Common.Text.{codes, str_eq, decimal}
use throttled_py.Dict
use throttled_py.Limiter.FixedWindow
use throttled_py.Limiter.FixedWindow.{result}
use throttled_py.Limiter.FixedWindow.Recovers.{refused-recovers}
use throttled_py.Limiter.FixedWindow.Window.{IsOpen}
use throttled_py.Limiter.SlidingWindow
use throttled_py.Limiter.SlidingWindow.{window_key, current_idx}
use throttled_py.Limiter.SlidingWindow.Denied.{first_request-counts}
use throttled_py.Memory
use throttled_py.Memory.{Backend}
use throttled_py.Memory.Effects.{IsValid}
use throttled_py.Quota.{Clock, RateLimiter}

abbrev at : ℕ → Clock
at n = record { now_sec = n; now_ms = n * 1000; now_mono_f = λ i. of_int (pos (n + i)) }

-- 2 requests in 10 seconds
abbrev limiter : RateLimiter
limiter = record {
  quota = record {
    rate = record { period = 10_000_000; limit = 2 };
    burst = 2;
    period_sec = 10;
    emission_interval = of_int (pos 5);
    fill_rate = pos 200;
  };
  key_prefix = codes "p:";
}

abbrev empty : Backend
empty = record { max_size = 2; expire_info = []; client = [] }

empty-IsValid : IsValid empty
empty-IsValid = record {
  positive = omega arith;
  bounded = omega arith;
  distinct = tt;
  distinct_expiry = tt;
}

-- A cost of 3 is refused at the second 23, and told to wait 7 seconds; at the second 30 a cost of 2 is
-- admitted.
refused-recovers_example :
    (FixedWindow.limit limiter (codes "k") 2 (at 30) empty).0
    ≡ ok (result limiter 30 (false, pos 2))
unfolding FixedWindow.limit Memory.get Memory.set Memory.has_expired Dict.lookup Dict.contains
    Dict.assign Dict.erase Dict.move_to_end str_eq decimal ◌+ℤ◌ ◌-ℤ◌ max_ℤ
refused-recovers_example =
    refused-recovers limiter (codes "k") 3 2 (at 23) (at 30) empty empty (omega arith) refl refl
      refl (omega arith) empty-IsValid refl

-- A cost of 3 is refused by the sliding window, too, and counted.
first_request-counts_example :
    IsOpen
      (window_key limiter (codes "k") (current_idx limiter (at 23)))
      (pos 3)
      (plus (of_int (pos 24)) (of_int (pos (3 * 10))))
      (SlidingWindow.limit limiter (codes "k") 3 (at 23) empty).1
unfolding Memory.get Memory.has_expired Dict.lookup Dict.contains
first_request-counts_example =
    first_request-counts limiter (codes "k") 3 (at 23) empty empty-IsValid refl

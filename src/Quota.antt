-- ===== src/Quota.antt =====
-- throttled/rate_limiter/base.py: the quota, the state and the result of a check, the storage keys,
-- and what one call of a rate limiter reads from the clocks.
use throttled_py.Action.{Outcome, ok, raised, zero_division}
use throttled_py.Common.{ℕ, ◌*◌, ◌/◌, Bool, ◌||◌, Option, none, some, ◌++◌, ◌==◌, if◌then◌else◌}
use throttled_py.Common.Float.{Float, Real, of_int, over, Num}
use throttled_py.Common.Int.{ℤ, pos}
use throttled_py.Common.Text.{Text}

-- `Rate`; the period is a `timedelta`, a count of microseconds.
pub record Rate : Type 0 where
  pub period : ℕ
  pub limit : ℕ

-- `timedelta(seconds=n)`
abbrev pub seconds : ℕ → ℕ
seconds n = n * 1_000_000

module _ ⦃F : Float⦄ where
  pub record Quota : Type 0 where
    pub rate : Rate
    pub burst : ℕ
    pub period_sec : ℕ
    pub emission_interval : Real
    pub fill_rate : Real

  -- The constructor with its `__post_init__`, whose divisions raise on a zero.
  unfoldable pub make_quota : Rate → ℕ → Outcome Quota
  make_quota rate burst =
      let period_sec = rate.period / 1_000_000 in
      if rate.limit == 0 || period_sec == 0
      then raised zero_division
      else ok (record {
        rate = rate;
        burst = burst;
        period_sec = period_sec;
        emission_interval = over (of_int (pos period_sec)) (of_int (pos rate.limit));
        fill_rate = over (of_int (pos rate.limit)) (of_int (pos period_sec));
      })

  unfoldable pub per_duration : ℕ → ℕ → Option ℕ → Outcome Quota
  unfolding make_quota
  per_duration duration limit none = make_quota (record { period = duration; limit = limit }) limit
  per_duration duration limit (some burst) =
      make_quota (record { period = duration; limit = limit }) burst

  abbrev pub per_sec : ℕ → Option ℕ → Outcome Quota
  per_sec = per_duration (seconds 1)

  abbrev pub per_min : ℕ → Option ℕ → Outcome Quota
  per_min = per_duration (seconds 60)

  abbrev pub per_hour : ℕ → Option ℕ → Outcome Quota
  per_hour = per_duration (seconds 3_600)

  abbrev pub per_day : ℕ → Option ℕ → Outcome Quota
  per_day = per_duration (seconds 86_400)

  abbrev pub per_week : ℕ → Option ℕ → Outcome Quota
  per_week = per_duration (seconds 604_800)

  pub record RateLimitState : Type 0 where
    pub limit : ℕ
    pub remaining : ℤ
    pub reset_after : Num
    pub retry_after : Num

  -- The state is built from its values when it is first read, which no caller can observe.
  pub record RateLimitResult : Type 0 where
    pub limited : Bool
    pub state : RateLimitState

  -- `utils.now_sec()`, `utils.now_ms()`, and the readings of `utils.now_mono_f()` that a call makes,
  -- in order.
  pub record Clock : Type 0 where
    pub now_sec : ℕ
    pub now_ms : ℕ
    pub now_mono_f : ℕ → Real

  -- The configuration that a rate limiter keeps: its quota, and the resolved prefix of its keys.
  pub record RateLimiter : Type 0 where
    pub quota : Quota
    pub key_prefix : Text

  abbrev pub prepare_key : RateLimiter → Text → Text
  prepare_key r key = r.key_prefix ++ key

-- ===== src/Otel.antt =====
-- throttled/contrib/otel/hook.py and throttled/asyncio/contrib/otel/hook.py: the hook that records
-- metrics. The two instruments of the meter are those of the OpenTelemetry package; what was added to
-- them stands for their state, last first.
pub mod Recorded
use throttled_py.Action.{Outcome, ok, raised}
use throttled_py.Asyncio.Coro.{Ending, returned, failed, cancelled}
use throttled_py.Asyncio.Hooks
use throttled_py.Common.{ℕ, List, ◌∷◌, if◌then◌else◌}
use throttled_py.Common.Float.{Float, Real, minus}
use throttled_py.Common.Text.{Text, codes}
use throttled_py.Hooks.{HookContext, Script, returns, raises, calls, reads, writes, Hook}
use throttled_py.Quota.{RateLimitResult}

pub record Attributes : Type 0 where
  pub key : Text
  pub algorithm : Text
  pub store_type : Text
  pub result : Text

module _ ⦃F : Float⦄ where
  -- `throttled.requests` and `throttled.duration`
  pub record Metrics : Type 0 where
    pub requests : List (ℕ × Attributes)
    pub durations : List (Real × Attributes)

  unfoldable pub attributes_of : HookContext → RateLimitResult → Attributes
  attributes_of context result = record {
    key = context.key;
    algorithm = context.algorithm;
    store_type = context.store_type;
    result = if result.limited then codes "denied" else codes "allowed";
  }

  -- `_record_metrics`
  unfoldable pub record_metrics : HookContext → RateLimitResult → Real → Metrics → Metrics
  unfolding attributes_of
  record_metrics context result duration m =
      let attributes = attributes_of context result in
      record {
        requests = (context.cost, attributes) ∷ m.requests;
        durations = (duration, attributes) ∷ m.durations;
      }

  -- `on_limit` after its call, with the two readings of the performance counter
  abbrev pub recorded :
      Real → Real → HookContext → Outcome RateLimitResult → Script Metrics RateLimitResult
  recorded start stop context (ok result) =
      reads (λ m. writes (record_metrics context result (minus stop start) m) (returns result))
  recorded start stop context (raised e) = raises e

  -- `OTelHook.on_limit`
  unfoldable pub on_limit : Real → Real → Hook Metrics RateLimitResult
  unfolding record_metrics
  on_limit start stop context = calls (recorded start stop context)

  abbrev async_recorded :
      Real → Real → HookContext → Ending RateLimitResult → Hooks.Script Metrics RateLimitResult
  async_recorded start stop context (returned result) = Hooks.reads (λ m.
      Hooks.writes (record_metrics context result (minus stop start) m)
        (Hooks.ends (returned result)))
  async_recorded start stop context (failed e) = Hooks.ends (failed e)
  async_recorded start stop context cancelled = Hooks.ends cancelled

  -- `OTelHook.on_limit` of the asynchronous package
  unfoldable pub async_on_limit : Real → Real → Hooks.Hook Metrics RateLimitResult
  unfolding record_metrics
  async_on_limit start stop context = Hooks.calls (async_recorded start stop context)

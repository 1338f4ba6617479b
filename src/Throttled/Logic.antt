-- ===== src/Throttled/Logic.antt =====
-- throttled/_throttled/logic.py: class ThrottledLogic.
use throttled_py.Action.{Outcome, ok, raised, data_error, index_error, bind}
use throttled_py.Common.{ℕ, Bool, ◌&&◌, ◌||◌, Option, none, some, List, [], ◌∷◌, if◌then◌else◌}
use throttled_py.Common.Float.{
  Float, Real, of_int, zero_f, minus, over, le, lt, max_f, min_f, Num, int, float, to_float,
}
use throttled_py.Common.Int.{pos, negsuc}
use throttled_py.Common.Text.{Text}
use throttled_py.Common.Unicode.{Unicode}
use throttled_py.Quota.{Quota, per_min}
use throttled_py.QuotaParser.{parse}
use throttled_py.Registry.{validate_key_prefix}

module _ ⦃F : Float⦄ where
  -- `_NON_BLOCKING`, `_WAIT_INTERVAL` and `_WAIT_MIN_INTERVAL`: the literals are quotients of integers
  abbrev pub non_blocking : Real
  non_blocking = of_int (negsuc 0)

  abbrev pub wait_interval : Real
  wait_interval = over (of_int (pos 1)) (of_int (pos 2))

  abbrev pub wait_min_interval : Real
  wait_min_interval = over (of_int (pos 1)) (of_int (pos 5))

  -- `a == b`
  abbrev pub eq_f : Real → Real → Bool
  eq_f a b = le a b && le b a

  -- `_validate_cost`: the cost that it accepts
  unfoldable pub validate_cost : Num → Outcome ℕ
  validate_cost (int (pos n)) = ok n
  validate_cost (int (negsuc n)) = raised data_error
  validate_cost (float r) = raised data_error

  -- `_validate_timeout`
  unfoldable pub validate_timeout : Num → Outcome (Unit {0})
  unfolding to_float
  validate_timeout timeout =
      if eq_f (to_float timeout) non_blocking || lt zero_f (to_float timeout)
      then ok tt
      else raised data_error

  -- the first of the keys that is there and not empty, as `_get_key` takes it
  unfoldable pub get_key : Option Text → Option Text → Outcome Text
  get_key (some (c ∷ key)) own = ok (c ∷ key)
  get_key none (some (c ∷ own)) = ok (c ∷ own)
  get_key (some []) (some (c ∷ own)) = ok (c ∷ own)
  get_key _ _ = raised data_error

  -- `_get_timeout`, with the timeout of the object
  unfoldable pub get_timeout : Option Num → Num → Outcome Num
  unfolding validate_timeout
  get_timeout none own = ok own
  get_timeout (some timeout) own = bind (validate_timeout timeout) (λ _. ok timeout)

  unfoldable pub get_wait_time : Real → Real
  get_wait_time retry_after = max_f (min_f retry_after wait_interval) wait_min_interval

  -- `_is_exit_waiting`, with its reading of the clock
  unfoldable pub is_exit_waiting : Real → Real → Real → Real → Bool
  is_exit_waiting now start_time retry_after timeout =
      let elapsed = minus now start_time in le retry_after elapsed || le timeout elapsed

module _ ⦃U : Unicode⦄ where
  -- `_validate_key_prefix`
  unfoldable pub validate_prefix : Option Text → Outcome (Unit {0})
  unfolding validate_key_prefix
  validate_prefix none = ok tt
  validate_prefix (some key_prefix) = validate_key_prefix key_prefix

module _ ⦃F : Float⦄ where
  -- what `quota` may be: `None`, a `Quota`, or a text
  pub data QuotaArg : Type 0 where
    omitted : QuotaArg
    given : Quota → QuotaArg
    expression : Text → QuotaArg

module _ ⦃F : Float⦄ where
  -- the only quota of a parsed expression
  unfoldable pub single_quota : List Quota → Outcome Quota
  single_quota [] = raised index_error
  single_quota (q ∷ []) = ok q
  single_quota (q ∷ q' ∷ quotas) = raised data_error

module _ ⦃F : Float⦄ ⦃U : Unicode⦄ where
  -- `_parse_quota`
  unfoldable pub parse_quota : QuotaArg → Outcome Quota
  unfolding parse single_quota
  parse_quota omitted = per_min 60 none
  parse_quota (given q) = ok q
  parse_quota (expression text) = bind (parse text) single_quota

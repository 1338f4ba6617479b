-- ===== src/Tests/Texts.antt =====
-- Quota expressions, storage keys and headers on concrete inputs.
use throttled_py.Action.{ok, raised, data_error}
use throttled_py.Common.{◌≡◌, ◌⊎◌, refl, false, none, some, List, [], ◌∷◌, arith}
use throttled_py.Common.Fixed.{fixed}
use throttled_py.Common.Float.{int, of_int}
use throttled_py.Common.Int.{pos}
use throttled_py.Common.Text.{Text, codes, str_eq}
use throttled_py.Common.Unicode.{ascii}
use throttled_py.Dict.{Dict, lookup, assign}
use throttled_py.Quota.{Quota, per_duration, RateLimitResult}
use throttled_py.Flask.Keys.{KeyParts, escaping, compose_key-injective}
use throttled_py.Flask.Headers.{ResponseHeaders, set_default, set_default-lookup}
use throttled_py.QuotaParser.{second, minute, parse}
use throttled_py.QuotaParser.Rendered.{render, parse-render}
use throttled_py.QuotaParser.Rules.{Rule, quota_for, AllPositive, quotas_for, parse_cases}
use throttled_py.Registry.{ActionClass, Instance, make_limiter, member}
use throttled_py.Registry.Actions.{make_limiter-registers}
use throttled_py.Registry.Builtin.{token_bucket, class_of, limit_type, memory_store, value}
use throttled_py.Registry.Keys.{prepare_key-separate}

-- 100 requests in a second with a burst of 200, and 5 in a minute
abbrev fast : Rule
fast = record { limit = 100; unit = second; burst = some 200 }

abbrev slow : Rule
slow = record { limit = 5; unit = minute; burst = none }

parse_runs : parse (codes " 100/S burst 200;  5 per minutes") ≡ ok (quotas_for (fast ∷ slow ∷ []))
unfolding parse quota_for lookup str_eq per_duration
parse_runs = refl

parse-render_example : parse (render fast (slow ∷ [])) ≡ ok (quotas_for (fast ∷ slow ∷ []))
parse-render_example = parse-render fast (slow ∷ []) (omega arith, (omega arith, tt))

parse_cases_example :
    (parse (codes "10/s") ≡ raised data_error)
    ⊎ ((r : Rule) × (rs : List Rule) × AllPositive (r ∷ rs)
        × (parse (codes "10/s") ≡ ok (quotas_for (r ∷ rs))))
parse_cases_example = parse_cases (codes "10/s")

abbrev token_quota : Quota
token_quota = record {
  rate = record { period = 10_000_000; limit = 2 };
  burst = 2;
  period_sec = 10;
  emission_interval = of_int (pos 5);
  fill_rate = pos 200;
}

abbrev token_limiter : Instance
token_limiter = record {
  cls = class_of token_bucket;
  limiter = record { quota = token_quota; key_prefix = codes "throttled:v1:token_bucket:" };
  atomic_actions = (limit_type, record { type = limit_type; store_type = memory_store }) ∷ [];
}

token_made :
    make_limiter (class_of token_bucket) token_quota memory_store [] none ≡ ok token_limiter
unfolding make_limiter class_of str_eq assign
token_made = refl

prepare_key-separate_example :
    (value token_bucket ≡ value token_bucket) × (codes "alice" ≡ codes "alice")
unfolding class_of value
prepare_key-separate_example =
    prepare_key-separate (class_of token_bucket) (class_of token_bucket) token_quota token_quota
      memory_store memory_store [] [] none (value token_bucket) (value token_bucket) token_limiter
      token_limiter (codes "alice") (codes "alice") token_made token_made refl refl (λ _. refl)
      (λ _. refl) (omega arith) (omega arith) refl

make_limiter-registers_example :
    (a : ActionClass) × (lookup limit_type token_limiter.atomic_actions ≡ some a)
    × (a.type ≡ limit_type)
    × (a.store_type ≡ memory_store)
unfolding class_of member str_eq
make_limiter-registers_example =
    make_limiter-registers (class_of token_bucket) token_quota memory_store [] none limit_type
      token_made refl

-- keys of requests and headers of responses
abbrev parts : KeyParts
parts = record { method = codes "GET"; route = codes "/a|b"; principal = codes "10.0.0.1" }

compose_key-injective_example : parts ≡ parts
compose_key-injective_example = compose_key-injective parts parts refl

-- headers as a dict
instance abbrev plain_headers : ResponseHeaders
plain_headers = record {
  Headers = Dict Text;
  same = str_eq;
  get = lookup;
  setdefault = set_default;
  get-setdefault = set_default-lookup;
}

abbrev checked : RateLimitResult
checked = record {
  limited = false;
  state = record {
    limit = 10;
    remaining = pos 9;
    reset_after = int (pos 6);
    retry_after = int (pos 0);
  };
}

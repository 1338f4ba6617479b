-- ===== src/Tests/Objects.antt =====
-- Objects of class `Throttled` on concrete inputs.
use throttled_py.Action.{Exc, Action, Outcome, ok, raised, data_error, type_error, ok-injective}
use throttled_py.Common.{ℕ, ◌+◌, ◌*◌, ◌≡◌, ◌⊎◌, inl, inr, refl, ap, false, none, some, [], ◌∷◌}
use throttled_py.Common.Fixed.{fixed}
use throttled_py.Common.Float.{of_int, Num, int, to_float}
use throttled_py.Common.Int.{pos, negsuc}
use throttled_py.Common.Text.{Text, codes, str_eq}
use throttled_py.Common.Unicode.{ascii}
use throttled_py.Dict.{Dict, lookup}
use throttled_py.Flask.Keys.{Request, get_remote_address, escaping}
use throttled_py.Flask.Served.{Served, wrapper-Served}
use throttled_py.Flask.View.{View, wrapper}
use throttled_py.Flask.View
use throttled_py.Hooks.{Script, returns, raises, calls, reads, writes, Hook}
use throttled_py.Hooks.Once.{Silent, Spent}
use throttled_py.Quota.{Quota, Clock, RateLimitResult}
use throttled_py.Registry.{LimiterClass, register_key}
use throttled_py.Registry.Builtin.{token_bucket, class_of}
use throttled_py.Throttled.{
  Throttled, Args, World, Env, init, limit_args, limit, checked_limit, enter, decorated,
}
use throttled_py.Throttled.Admits.{limit-grants_once}
use throttled_py.Throttled.Finishes.{Ends, limit-finishes}
use throttled_py.Throttled.Guards.{returned, enter-granted, decorated-granted}
use throttled_py.Throttled.Grants.{grants}
use throttled_py.Throttled.Logic.{given}
use throttled_py.Throttled.Sleeps.{AllShort, limit-sleeps}
use throttled_py.Throttled.Init.{Made, Reason, init-cases}
use throttled_py.Throttled.Setup.{Checked, limit_cases}

abbrev at : ℕ → Clock
at n = record { now_sec = n; now_ms = n * 1000; now_mono_f = λ i. of_int (pos (n + i)) }

-- 2 requests in 10 seconds
abbrev quota : Quota
quota = record {
  rate = record { period = 10_000_000; limit = 2 };
  burst = 2;
  period_sec = 10;
  emission_interval = of_int (pos 5);
  fill_rate = pos 200;
}

abbrev answer : Outcome RateLimitResult → Script ℕ RateLimitResult
answer (ok r) = returns r
answer (raised e) = raises e

abbrev metric : Hook ℕ RateLimitResult
metric c = reads (λ h. writes (h + 1) (calls answer))

silent : (o : Outcome RateLimitResult) → Silent (answer o)
silent (ok r) = tt
silent (raised e) = tt

abbrev throttled : Throttled ℕ
throttled = record {
  key = some (codes "k");
  timeout = int (negsuc 0);
  quota = quota;
  limiter_cls = class_of token_bucket;
  key_prefix = none;
  hooks = metric ∷ [];
  cost = 1;
}

abbrev world : World
world = record {
  limiter = none;
  backend = record { max_size = 2; expire_info = []; client = [] };
  answers = [];
  sleeps = [];
  unfinished = false;
}

-- a call whose first retry comes after 3 seconds
abbrev env : Env
env = record {
  clock = at 1;
  start_time = of_int (pos 1);
  rounds =
      record {
        wait_start = of_int (pos 1);
        readings = of_int (pos 2) ∷ of_int (pos 4) ∷ [];
        clock = at 4;
        now = of_int (pos 4);
      }
      ∷ [];
}

limit-grants_once_example :
    let done = limit throttled none (int (pos 1)) (some (int (pos 2))) env (world, 0) in
    Spent (grants world) done.0 (grants done.1.0)
limit-grants_once_example =
    limit-grants_once throttled none (int (pos 1)) (some (int (pos 2))) env world 0
      (λ c. (λ h. silent, tt))

limit-sleeps_example :
    AllShort (limit throttled none (int (pos 3)) (some (int (pos 2))) env (world, 0)).1.0.sleeps
limit-sleeps_example =
    limit-sleeps throttled none (int (pos 3)) (some (int (pos 2))) env world 0 refl tt

enough :
    (n : ℕ) (k : Text) (time : Num)
    → limit_args throttled none (int (pos 3)) (some (int (pos 2))) ≡ ok (n, k, time)
    → Ends (to_float time) env
unfolding limit_args to_float
enough n k time h =
    let same : int (pos 2) ≡ time = ap (λ x. x.2) (ok-injective h) in
    rw (← same) (inr (inr (inl refl), inl refl))

limit-finishes_example :
    (limit throttled none (int (pos 3)) (some (int (pos 2))) env (world, 0)).1.0.unfinished ≡ false
limit-finishes_example =
    limit-finishes throttled none (int (pos 3)) (some (int (pos 2))) env world 0 enough refl

limit_cases_example :
    let done = limit throttled none (int (negsuc 0)) none env (world, 0) in
    (done ≡ (raised data_error, (world, 0)))
    ⊎ ((n : ℕ) × (k : Text) × (time : Num) × Checked throttled none (int (negsuc 0)) n k time
        × (done ≡ checked_limit throttled k n time env (world, 0)))
unfolding to_float
limit_cases_example = limit_cases throttled none (int (negsuc 0)) none env (world, 0) refl

abbrev table : Dict LimiterClass
table = (register_key (codes "sync") (codes "token_bucket"), class_of token_bucket) ∷ []

abbrev args : Args ℕ
args = record {
  key = some (codes "k");
  timeout = none;
  using = none;
  quota = given quota;
  cost = int (pos 1);
  hooks = some metric ∷ [];
  key_prefix = none;
}

init-cases_example :
    ((e : Exc) × (init table args ≡ raised e) × Reason table args e)
    ⊎ ((t : Throttled ℕ) × (init table args ≡ ok t) × Made table args t)
init-cases_example = init-cases table args

-- The object of these arguments, and the refusal of a hook that is none.
init_test_made : init table args ≡ ok throttled
unfolding init lookup str_eq
init_test_made = refl

init_test_refused : init table (record args { hooks = none ∷ some metric ∷ [] }) ≡ raised type_error
unfolding init lookup str_eq
init_test_refused = refl

abbrev bare : Throttled ℕ
bare = record throttled { hooks = [] }

enter-granted_example :
    let done = enter bare env (world, 0) in grants done.1.0 ≡ returned done.0 + 0
enter-granted_example = enter-granted bare env world 0 refl

-- a function that counts its calls
abbrev func : Action (World × ℕ) ℕ
func (w, h) = (ok 5, (w, h + 1))

decorated-granted_example :
    let done = decorated bare func env (world, 0) in
    ((e : Exc) × (s : World × ℕ) × (done ≡ (raised e, s)) × (grants s.0 ≡ 0))
    ⊎ ((s : World × ℕ) × (done ≡ func s) × (grants s.0 ≡ 0 + 1))
decorated-granted_example = decorated-granted bare func env world 0 refl

abbrev request : Request
request = record {
  method = codes "GET";
  path = codes "/items/1";
  url_rule = some (codes "/items/<id>");
  remote_addr = none;
  blueprints = [];
}

-- a view that counts its calls
abbrev view : View ℕ ℕ
view ((w, h), slot) = (View.returned 5, ((w, h + 1), slot))

wrapper-Served_example :
    Served 0 none view
      (wrapper bare (λ r. ok (get_remote_address r)) [] view request env ((world, 0), none))
wrapper-Served_example =
    wrapper-Served bare (λ r. ok (get_remote_address r)) [] view request env world 0 none refl

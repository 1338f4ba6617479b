-- ===== src/Limiter/SlidingWindow/Denied.antt =====
-- The count of a window of the sliding-window limiter after its first request.
use throttled_py.Action.{Outcome, ok, raised, Action, after}
use throttled_py.Common.{ℕ, ◌*◌, ◌≡◌, ap, false, not, ◌&&◌, ◌==◌, none, Bool-cases, inl, inr}
use throttled_py.Common.Float.{Float, Real, of_int, plus, floor, times, int}
use throttled_py.Common.Int.{ℤ, pos, ltb_ℤ, ◌+ℤ◌, ◌-ℤ◌, int_laws, pos_part, neg_part}
use throttled_py.Common.Text.{Text, str_eq, eq_of_str_eq}
use throttled_py.Limiter.FixedWindow.Window.{IsOpen, assign-IsOpen}
use throttled_py.Limiter.Periods.{window_key-separate}
use throttled_py.Limiter.SlidingWindow.{
  open_window, previous_count, previous_proportion, do_limit, window_key, current_idx, limit,
}
use throttled_py.Memory.{Backend, num, get, set, assign_client}
use throttled_py.Memory.Effects.{IsValid}
use throttled_py.Memory.Invariant.{get-IsValid, set-IsValid}
use throttled_py.Memory.Others.{get-Holds_other}
use throttled_py.Memory.Reads.{set-Holds, set_ok}
use throttled_py.Quota.{RateLimiter, Clock}

zero_add : {n : ℕ} → pos 0 +ℤ pos n ≡ pos n
zero_add {n} = omega int_laws

not_before : (z : ℤ) → z -ℤ pos 1 ≡ z → ⊥
not_before z h = omega (int_laws, ap pos_part h, ap neg_part h)

module _ ⦃F : Float⦄ where
  get-IsOpen_other :
      (other key : Text) (count : ℤ) (exp now : Real) (b : Backend)
      → str_eq other key ≡ false
      → IsOpen key count exp b
      → IsOpen key count exp (get other now b).1
  get-IsOpen_other other key count exp now b e h = record {
    valid = get-IsValid other now b h.valid;
    holds = get-Holds_other other key (num (int count)) exp now b e h.holds;
  }

  -- A request that writes a count that is there already.
  rewrites :
      (key : Text) (cost : ℕ) (exp : Real) (b : Backend)
      → IsOpen key (pos cost) exp b
      → IsOpen key (pos cost) exp (assign_client key (num (int (pos 0 +ℤ pos cost))) b).1
  unfolding assign_client
  rewrites key cost exp b h = rw zero_add (assign-IsOpen key (pos cost) (pos cost) exp b h)

  -- What an action and its rest keep.
  after-keeps :
      {A B : Type 0} (P : Backend → Type 0) (f : A → Action Backend B) (done : Outcome A × Backend)
      → P done.1
      → ((a : A) (b : Backend) → P b → P (f a b).1)
      → P (after f done).1
  after-keeps P f (ok a, b) h k = k a b h
  after-keeps P f (raised e, b) h k = h

  do_limit-counts :
      (current_key previous_key : Text) (period limit cost now_ms : ℕ) (t : ℕ → Real) (b : Backend)
      → IsValid b
      → (get current_key (t 0) b).0 ≡ ok none
      → str_eq previous_key current_key ≡ false
      → IsOpen current_key
          (pos cost)
          (plus (t 1) (of_int (pos (3 * period))))
          (do_limit current_key previous_key period limit cost now_ms t b).1
  unfolding do_limit open_window assign_client
  do_limit-counts current_key previous_key period limit cost now_ms t b valid missing other =
      let b' = (get current_key (t 0) b).1 in
      let valid' = get-IsValid current_key (t 0) b valid in
      let exp = plus (t 1) (of_int (pos (3 * period))) in
      let set' = set current_key (int (pos cost)) (pos (3 * period)) (t 1) b' in
      let opened : IsOpen current_key (pos cost) exp set'.1 = record {
        valid = set-IsValid current_key (int (pos cost)) (pos (3 * period)) (t 1) b' valid';
        holds = (set-Holds current_key (int (pos cost)) (pos (3 * period)) (t 1) b' valid').1;
      } in
      let read =
        get-IsOpen_other previous_key current_key (pos cost) exp (t 2) set'.1 other opened in
      rw (missing, after)
        (rw (set_ok current_key (int (pos cost)) (pos (3 * period)) (t 1) b' valid') (
          after-keeps (IsOpen current_key (pos cost) exp) _ (get previous_key (t 2) set'.1) read
            (λ raw b'' h.
              let previous =
                floor (times (previous_proportion period now_ms) (of_int (previous_count raw))) in
              elim (Bool-cases
                (ltb_ℤ (pos limit) (previous +ℤ pos 0 +ℤ pos cost) && not (cost == 0))) [
                  | inl limited ↦ rw limited h
                  | inr admitted ↦ rw admitted (rewrites current_key cost exp b'' h)
                ])))

  -- On a valid store without a count for the current window, the first request of the window leaves
  -- its cost as the count, for three periods, whether it is admitted or limited.
  pub first_request-counts :
      (r : RateLimiter) (key : Text) (cost : ℕ) (c : Clock) (b : Backend)
      → IsValid b
      → (get (window_key r key (current_idx r c)) (c.now_mono_f 0) b).0 ≡ ok none
      → IsOpen
          (window_key r key (current_idx r c))
          (pos cost)
          (plus (c.now_mono_f 1) (of_int (pos (3 * r.quota.period_sec))))
          (limit r key cost c b).1
  unfolding limit
  first_request-counts r key cost c b valid missing =
      let idx = current_idx r c in
      let k = window_key r key idx in
      let other : str_eq (window_key r key (idx -ℤ pos 1)) k ≡ false =
        elim (Bool-cases (str_eq (window_key r key (idx -ℤ pos 1)) k)) [
          | inl same ↦
              let (_, e) =
                window_key-separate r key key (idx -ℤ pos 1) idx (eq_of_str_eq _ _ same) in
              absurd (not_before idx e)
          | inr differ ↦ differ
        ] in
      after-keeps
        (IsOpen k (pos cost) (plus (c.now_mono_f 1) (of_int (pos (3 * r.quota.period_sec))))) _
        (do_limit k (window_key r key (idx -ℤ pos 1)) r.quota.period_sec r.quota.rate.limit cost
          c.now_ms c.now_mono_f b)
        (do_limit-counts k (window_key r key (idx -ℤ pos 1)) r.quota.period_sec r.quota.rate.limit
          cost c.now_ms c.now_mono_f b valid missing other)
        (λ a b' h. h)

-- ===== src/Limiter/FixedWindow/Window.antt =====
-- One window of the fixed-window limiter: what a request does to the count, and the bound on what a
-- window admits.
use throttled_py.Action.{ok, after}
use throttled_py.Common.{ℕ, ◌≡◌, refl, Bool, false, not, ◌&&◌, none, ◌==◌, arith}
use throttled_py.Common.Float.{Float, Real, of_int, plus, le, int, to_int}
use throttled_py.Common.Int.{ℤ, pos, ltb_ℤ, ◌+ℤ◌}
use throttled_py.Common.Text.{Text, str_eq_refl}
use throttled_py.Dict.Laws.{lookup-assign}
use throttled_py.Limiter.FixedWindow.{do_limit, limit}
use throttled_py.Memory.{Backend, num, get, assign_client}
use throttled_py.Memory.Effects.{IsValid, stored, stored-IsValid, fits_of_present}
use throttled_py.Memory.Invariant.{get-IsValid, set-IsValid, assign_client-IsValid}
use throttled_py.Memory.Reads.{Holds, get_live, set-Holds, set_ok, stored-Holds}

module _ ⦃F : Float⦄ where
  abbrev pub exceeds : ℕ → ℕ → ℤ → Bool
  exceeds limit cost current = ltb_ℤ (pos limit) current && not (cost == 0)

  -- The window of a key is open, with a count, until the expiry.
  pub record IsOpen (key : Text) (count : ℤ) (exp : Real) (b : Backend) : Type 0 where
    pub valid : IsValid b
    pub holds : Holds key (num (int count)) exp b

  pub assign-IsOpen :
      (key : Text) (old new : ℤ) (exp : Real) (b : Backend)
      → IsOpen key old exp b
      → IsOpen key new exp (assign_client key (num (int new)) b).1
  unfolding assign_client
  assign-IsOpen key old new exp b h = record {
    valid =
        unfold assign_client in assign_client-IsValid key (num (int new)) b h.holds.bucket h.valid;
    holds = record {
      bucket = ground (arith, lookup-assign key key (num (int new)) b.client, str_eq_refl key);
      expiry = h.holds.expiry;
    };
  }

  stored-IsOpen :
      (key : Text) (count : ℤ) (exp : Real) (b : Backend)
      → IsOpen key count exp b
      → IsOpen key count exp (stored key (num (int count)) b)
  stored-IsOpen key count exp b h = record {
    valid =
        stored-IsValid key (num (int count)) b (fits_of_present key b h.holds.bucket h.valid)
          h.valid;
    holds = stored-Holds key (num (int count)) (num (int count)) exp b h.valid.distinct h.holds;
  }

  -- A request in an open window adds its cost to the count, whether it is admitted or not.
  pub do_limit-IsOpen :
      (key : Text) (period limit cost : ℕ) (t : ℕ → Real) (count : ℤ) (exp : Real) (b : Backend)
      → IsOpen key count exp b
      → le exp (t 0) ≡ false
      → let current = count +ℤ pos cost in
        let done = do_limit key period limit cost t b in
        (done.0 ≡ ok (exceeds limit cost current, current)) × IsOpen key current exp done.1
  unfolding do_limit to_int assign_client
  do_limit-IsOpen key period limit cost t count exp b h live =
      rw (get_live key (int count) exp (t 0) b h.holds live) (
        refl,
        assign-IsOpen key count (count +ℤ pos cost) exp (stored key (num (int count)) b)
            (stored-IsOpen key count exp b h),
      )

  -- The first request of a window opens it with its cost, for one period.
  pub do_limit_first :
      (key : Text) (period limit cost : ℕ) (t : ℕ → Real) (b : Backend)
      → (get key (t 0) b).0 ≡ ok none
      → IsValid b
      → let done = do_limit key period limit cost t b in
        (done.0 ≡ ok (exceeds limit cost (pos cost), pos cost))
        × IsOpen key (pos cost) (plus (t 1) (of_int (pos period))) done.1
  unfolding do_limit
  do_limit_first key period limit cost t b missing h =
      let b' = (get key (t 0) b).1 in
      let valid = get-IsValid key (t 0) b h in
      let set' = set-Holds key (int (pos cost)) (pos period) (t 1) b' valid in
      rw (missing, after)
        (rw (set_ok key (int (pos cost)) (pos period) (t 1) b' valid) (
          refl,
          record {
            valid = set-IsValid key (int (pos cost)) (pos period) (t 1) b' valid;
            holds = set'.1;
          },
        ))

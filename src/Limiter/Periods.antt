-- ===== src/Limiter/Periods.antt =====
-- Storage keys of the window limiters: each key and each period has its own.
use mathlib.Core.List.{append_assoc}
use throttled_py.Common.{ℕ, ◌+◌, ◌/◌, ◌≡◌, sym, ap, ◌∙◌, [], ◌∷◌, ◌++◌, arith}
use throttled_py.Common.Decimal.{All, IsDigit, decimal-All, decimal-injective, decimal-Led}
use throttled_py.Common.Float.{Float}
use throttled_py.Common.Int.{ℤ, pos, negsuc}
use throttled_py.Common.Split.{Lacks, last_split_unique, append_cancel}
use throttled_py.Common.Text.{Text, codes, decimal}
use throttled_py.Limiter.FixedWindow.{period_key}
use throttled_py.Limiter.SlidingWindow.{window_key}
use throttled_py.Quota.{RateLimiter}

-- The number of a window in a key.
abbrev index_text : ℤ → Text
index_text (pos n) = decimal n
index_text (negsuc n) = b'-' ∷ decimal (n + 1)

plain : (t : Text) → All IsDigit t → Lacks b':' t
plain [] h = tt
plain (c ∷ t) h = (λ e. omega (arith, h.0.0, h.0.1, e), plain t h.1)

index-plain : (z : ℤ) → Lacks b':' (index_text z)
index-plain (pos n) = plain (decimal n) (decimal-All n)
index-plain (negsuc n) = (λ e. omega (arith, e), plain (decimal (n + 1)) (decimal-All (n + 1)))

digit_not_minus : (m : ℕ) (t : Text) → decimal m ≡ b'-' ∷ t → ⊥
digit_not_minus m t e =
    let l = decimal-Led m in
    let first : l.first ≡ b'-' = cc (l.split, e) in omega (arith, l.digit.0, first)

minus_tail : (s t : Text) → ◌≡◌ {A = Text} (b'-' ∷ s) (b'-' ∷ t) → s ≡ t
minus_tail s t h = cc

index-injective : (x y : ℤ) → index_text x ≡ index_text y → x ≡ y
index-injective (pos m) (pos n) h = ap pos (decimal-injective m n h)
index-injective (pos m) (negsuc n) h = absurd (digit_not_minus m (decimal (n + 1)) h)
index-injective (negsuc m) (pos n) h = absurd (digit_not_minus n (decimal (m + 1)) (sym h))
index-injective (negsuc m) (negsuc n) h =
    let same = decimal-injective (m + 1) (n + 1) (minus_tail _ _ h) in
    let e : m ≡ n = omega (arith, same) in ap negsuc e

abbrev with_index : Text → ℤ → Text
with_index key z = key ++ b':' ∷ (codes "period" ++ b':' ∷ index_text z)

word-plain : Lacks b':' (codes "period")
word-plain =
    (omega arith, (omega arith, (omega arith, (omega arith, (omega arith, (omega arith, tt))))))

with_index-injective :
    (key key' : Text) (x y : ℤ) → with_index key x ≡ with_index key' y → (key ≡ key') × (x ≡ y)
with_index-injective key key' x y h =
    let regroup =
      λ (k : Text) (z : ℤ). append_assoc k (b':' ∷ codes "period") (b':' ∷ index_text z) in
    let (keys, indices) =
      last_split_unique b':' (key ++ b':' ∷ codes "period") (key' ++ b':' ∷ codes "period")
        (index_text x) (index_text y) (index-plain x) (index-plain y)
        (regroup key x ∙ h ∙ sym (regroup key' y)) in
    let rest =
      last_split_unique b':' key key' (codes "period") (codes "period") word-plain word-plain
        keys in
    (rest.0, index-injective x y indices)

pos_injective : (m n : ℕ) → pos m ≡ pos n → m ≡ n
pos_injective m n h = cc

module _ ⦃F : Float⦄ where
  -- The fixed-window limiter uses one storage key for two requests only if they have the same key and
  -- come in the same period.
  pub period_key-separate :
      (r : RateLimiter) (key key' : Text) (now now' : ℕ)
      → period_key r key now ≡ period_key r key' now'
      → (key ≡ key') × (now / r.quota.period_sec ≡ now' / r.quota.period_sec)
  unfolding period_key
  period_key-separate r key key' now now' h =
      let p = r.quota.period_sec in
      let e = append_cancel r.key_prefix h in
      let (keys, indices) = with_index-injective key key' (pos (now / p)) (pos (now' / p)) (
        sym (append_assoc key (codes ":period:") (decimal (now / p)))
        ∙ e
        ∙ append_assoc key' (codes ":period:") (decimal (now' / p))) in
      (keys, pos_injective (now / p) (now' / p) indices)

  index_key :
      (r : RateLimiter) (key : Text) (z : ℤ) → window_key r key z ≡ r.key_prefix ++ with_index key z
  unfolding window_key
  index_key r key (pos n) =
      ap (λ t. r.key_prefix ++ t) (append_assoc key (codes ":period:") (decimal n))
  index_key r key (negsuc n) =
      ap (λ t. r.key_prefix ++ t) (append_assoc key (codes ":period:-") (decimal (n + 1)))

  -- The sliding-window limiter uses one storage key for two windows only if they belong to the same
  -- key and have the same number.
  pub window_key-separate :
      (r : RateLimiter) (key key' : Text) (x y : ℤ)
      → window_key r key x ≡ window_key r key' y
      → (key ≡ key') × (x ≡ y)
  window_key-separate r key key' x y h =
      with_index-injective key key' x y
        (append_cancel r.key_prefix (sym (index_key r key x) ∙ h ∙ index_key r key' y))

-- ===== src/QuotaParser/RoundTrip.antt =====
-- Rules that are written out are read back.
use mathlib.Core.List.{append-nil}
use throttled_py.Common.{ℕ, ◌≡◌, refl, true, false, Option, none, some, [], ◌∷◌, ◌++◌, arith}
use throttled_py.Common.Decimal.{All, All-map, IsDigit, decimal-All, decimal-Led}
use throttled_py.Common.Text.{Text, codes, decimal}
use throttled_py.Common.Unicode.{Unicode}
use throttled_py.QuotaParser.{
  CanonicalUnit, second, minute, hour, day, week, is_letter, is_digit, match_rate, match_unit,
  match_tail, slash_unit, burst_tail, some_of, then_,
}
use throttled_py.QuotaParser.Rules.{Rule}
use throttled_py.QuotaParser.Scan.{
  Stops, some_of-append, solid, blank, digit-solid, digit-is_digit, not_digit, lstrip-solid,
  lstrip-Led,
}

-- The names of the units as a rule is written.
abbrev pub name : CanonicalUnit → Text
name second = codes "second"
name minute = codes "minute"
name hour = codes "hour"
name day = codes "day"
name week = codes "week"

abbrev pub burst_text : Option ℕ → Text
burst_text none = []
burst_text (some b) = codes " burst " ++ decimal b

abbrev pub text_of : Rule → Text
text_of r = decimal r.limit ++ b'/' ∷ (name r.unit ++ burst_text r.burst)

module _ ⦃U : Unicode⦄ where
  digits : (n : ℕ) → All (λ c. is_digit c ≡ true) (decimal n)
  digits n = All-map IsDigit (λ c. is_digit c ≡ true) digit-is_digit (decimal n) (decimal-All n)

  read_some :
      (n : ℕ) (rest : Text)
      → Stops is_digit rest
      → some_of is_digit (decimal n ++ rest) ≡ some (decimal n, rest)
  read_some n rest h =
      let l = decimal-Led n in
      rw l.split (some_of-append is_digit l.first l.rest rest (rw l.split at (digits n)) h)

  decimal-Stops : (n : ℕ) → Stops U.is_space (decimal n)
  decimal-Stops n = let l = decimal-Led n in rw l.split (digit-solid l.first l.digit)

  burst_read : (b : ℕ) → burst_tail (burst_text (some b)) ≡ some (decimal b)
  unfolding burst_tail
  burst_read b =
      rw
        (
          some_of-append U.is_space b' ' [] (codes "burst " ++ decimal b) (blank, tt)
              (solid b'b' (omega arith) refl),
          then_,
        )
        (rw (some_of-append U.is_space b' ' [] (decimal b) (blank, tt) (decimal-Stops b), then_)
          (rw (rw append-nil at (read_some b [] tt), then_)))

  burst_none : burst_tail (burst_text none) ≡ none
  unfolding burst_tail
  burst_none = refl

  slash_read :
      (c : ℕ) (s tail : Text)
      → All (λ d. is_letter d ≡ true) (c ∷ s)
      → U.is_space c ≡ false
      → Stops is_letter tail
      → slash_unit (b'/' ∷ (c ∷ s ++ tail)) ≡ some (c ∷ s, tail)
  unfolding slash_unit
  slash_read c s tail h e stop =
      rw (lstrip-solid c (s ++ tail) e) (rw (some_of-append is_letter c s tail h stop))

  word_read :
      (c : ℕ) (s tail : Text)
      → All (λ d. is_letter d ≡ true) (c ∷ s)
      → U.is_space c ≡ false
      → Stops is_letter tail
      → match_unit (b'/' ∷ (c ∷ s ++ tail)) ≡ some (c ∷ s, tail)
  unfolding match_unit
  word_read c s tail h e stop = rw (match_unit, slash_read c s tail h e stop)

  unit_read :
      (u : CanonicalUnit) (tail : Text)
      → Stops is_letter tail
      → match_unit (b'/' ∷ (name u ++ tail)) ≡ some (name u, tail)
  unit_read second tail h =
      word_read b's' (codes "econd") tail (refl, (refl, (refl, (refl, (refl, (refl, tt))))))
        (solid b's' (omega arith) refl) h
  unit_read minute tail h =
      word_read b'm' (codes "inute") tail (refl, (refl, (refl, (refl, (refl, (refl, tt))))))
        (solid b'm' (omega arith) refl) h
  unit_read hour tail h =
      word_read b'h' (codes "our") tail (refl, (refl, (refl, (refl, tt))))
        (solid b'h' (omega arith) refl) h
  unit_read day tail h =
      word_read b'd' (codes "ay") tail (refl, (refl, (refl, tt))) (solid b'd' (omega arith) refl) h
  unit_read week tail h =
      word_read b'w' (codes "eek") tail (refl, (refl, (refl, (refl, tt))))
        (solid b'w' (omega arith) refl) h

  burst_text-Stops : (burst : Option ℕ) → Stops is_letter (burst_text burst)
  burst_text-Stops none = tt
  burst_text-Stops (some b) = refl

  abbrev pub burst_group : Option ℕ → Option Text
  burst_group none = none
  burst_group (some b) = some (decimal b)

  tail_read :
      (limit : Text) (u : CanonicalUnit) (burst : Option ℕ)
      → match_tail limit (name u) (burst_text burst) (burst_tail (burst_text burst))
        ≡ some (record { limit = limit; unit = name u; burst = burst_group burst })
  unfolding match_tail
  tail_read limit u none = rw burst_none
  tail_read limit u (some b) = rw (burst_read b)

  pub rule_matched :
      (r : Rule)
      → match_rate (text_of r)
        ≡ some (record { limit = decimal r.limit; unit = name r.unit; burst = burst_group r.burst })
  unfolding match_rate
  rule_matched r =
      let rest = b'/' ∷ (name r.unit ++ burst_text r.burst) in
      rw (lstrip-Led (decimal r.limit) rest (decimal-Led r.limit)) (
        rw (read_some r.limit rest (not_digit b'/' (omega arith) refl), then_)
          (rw
            (lstrip-solid b'/' (name r.unit ++ burst_text r.burst) (solid b'/' (omega arith) refl))
            (rw (unit_read r.unit (burst_text r.burst) (burst_text-Stops r.burst), then_)
              (tail_read (decimal r.limit) r.unit r.burst))))

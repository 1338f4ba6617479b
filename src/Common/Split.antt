-- ===== src/Common/Split.antt =====
-- Texts that are joined by a separator can be taken apart again where it does not occur in them.
use Prim.Native.Nat.{ℕ}
use mathlib.Core.List.{[], ◌∷◌, ◌++◌}
use mathlib.Core.Logic.{◌≢◌}
use mathlib.Core.Path.{◌≡◌, refl, sym, subst}
use throttled_py.Common.Text.{Text}

-- A character does not occur in a text.
abbrev pub Lacks : ℕ → Text → Type 0
Lacks c [] = Unit
Lacks c (d ∷ t) = (d ≢ c) × Lacks c t

head_eq : {c d : ℕ} {s t : Text} → ◌≡◌ {A = Text} (c ∷ s) (d ∷ t) → c ≡ d
head_eq h = cc

tail_eq : {c d : ℕ} {s t : Text} → ◌≡◌ {A = Text} (c ∷ s) (d ∷ t) → s ≡ t
tail_eq h = cc

pub split_unique :
    (c : ℕ) (s s' rest rest' : Text)
    → Lacks c s
    → Lacks c s'
    → s ++ c ∷ rest ≡ s' ++ c ∷ rest'
    → (s ≡ s') × (rest ≡ rest')
split_unique c [] [] rest rest' l l' e = (refl, tail_eq e)
split_unique c [] (d ∷ s') rest rest' l l' e = absurd (l'.0 (sym (head_eq e)))
split_unique c (d ∷ s) [] rest rest' l l' e = absurd (l.0 (head_eq e))
split_unique c (d ∷ s) (d' ∷ s') rest rest' l l' e =
    let tails = split_unique c s s' rest rest' l.1 l'.1 (tail_eq e) in
    let heads = head_eq e in (cc, tails.1)

-- A common prefix falls away.
pub append_cancel : (p : Text) {s t : Text} → p ++ s ≡ p ++ t → s ≡ t
append_cancel [] h = h
append_cancel (c ∷ p) h = append_cancel p (tail_eq h)

Lacks-none : (c : ℕ) (s t : Text) → Lacks c (s ++ c ∷ t) → ⊥
Lacks-none c [] t l = l.0 refl
Lacks-none c (d ∷ s) t l = Lacks-none c s t l.1

-- The last separator of a text, by what stands behind it.
pub last_split_unique :
    (c : ℕ) (s s' rest rest' : Text)
    → Lacks c rest
    → Lacks c rest'
    → s ++ c ∷ rest ≡ s' ++ c ∷ rest'
    → (s ≡ s') × (rest ≡ rest')
last_split_unique c [] [] rest rest' l l' e = (refl, tail_eq e)
last_split_unique c [] (d ∷ s') rest rest' l l' e =
    absurd (Lacks-none c s' rest' (subst (Lacks c) (tail_eq e) l))
last_split_unique c (d ∷ s) [] rest rest' l l' e =
    absurd (Lacks-none c s rest (subst (Lacks c) (sym (tail_eq e)) l'))
last_split_unique c (d ∷ s) (d' ∷ s') rest rest' l l' e =
    let tails = last_split_unique c s s' rest rest' l l' (tail_eq e) in
    let heads = head_eq e in (cc, tails.1)

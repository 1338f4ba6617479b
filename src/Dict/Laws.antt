-- ===== src/Dict/Laws.antt =====
-- What the operations of a dict do to its lookups, its keys and its length.
use throttled_py.Common.{
  ◌+◌, ◌≤◌, ◌≡◌, refl, false, none, some, [], ◌∷◌, ◌++◌, arith, length, if◌then◌else◌,
}
use throttled_py.Common.Text.{Text, str_eq, str_eq_iff, str_eq_refl}
use throttled_py.Dict.{Dict, lookup, contains, assign, erase, update, move_to_end}

module _ {ℓ} {V : Type ℓ} where
  -- No key stands in the dict twice.
  abbrev pub IsDistinct : Dict V → Type ℓ
  IsDistinct [] = Unit
  IsDistinct ((k, _) ∷ d) = (lookup k d ≡ none) × IsDistinct d

  pub lookup-assign :
      (k j : Text) (v : V) (d : Dict V)
      → lookup j (assign k v d) ≡ (if str_eq k j then some v else lookup j d)
  unfolding lookup assign
  lookup-assign k j v [] = refl
  lookup-assign k j v ((i, w) ∷ d) =
      ground (arith, lookup-assign k j v d, str_eq_iff i k, str_eq_iff i j, str_eq_iff k j)

  pub lookup-erase_ne :
      (k j : Text) (d : Dict V) → str_eq k j ≡ false → lookup j (erase k d) ≡ lookup j d
  unfolding lookup erase
  lookup-erase_ne k j [] h = refl
  lookup-erase_ne k j ((i, w) ∷ d) h =
      ground (arith, lookup-erase_ne k j d h, str_eq_iff i k, str_eq_iff i j, str_eq_iff k j)

  pub lookup-erase-none :
      (k j : Text) (d : Dict V) → lookup j d ≡ none → lookup j (erase k d) ≡ none
  unfolding lookup erase
  lookup-erase-none k j [] h = refl
  lookup-erase-none k j ((i, w) ∷ d) h = ground (arith, lookup-erase-none k j d)

  pub lookup-erase_self : (k : Text) (d : Dict V) → IsDistinct d → lookup k (erase k d) ≡ none
  unfolding lookup erase
  lookup-erase_self k [] h = refl
  lookup-erase_self k ((i, w) ∷ d) h = ground (arith, lookup-erase_self k d h.1, str_eq_iff i k)

  pub lookup-append :
      (j : Text) (d : Dict V) (k : Text) (v : V)
      → lookup j (d ++ (k, v) ∷ [])
        ≡ (elim (lookup j d) [ some w ↦ some w | none ↦ if str_eq k j then some v else none ])
  unfolding lookup
  lookup-append j [] k v = refl
  lookup-append j ((i, w) ∷ d) k v = ground (arith, lookup-append j d k v)

  pub erase_absent : (k : Text) (d : Dict V) → lookup k d ≡ none → erase k d ≡ d
  unfolding lookup erase
  erase_absent k [] h = refl
  erase_absent k ((i, w) ∷ d) h = ground (arith, erase_absent k d)

  pub erase-IsDistinct : (k : Text) (d : Dict V) → IsDistinct d → IsDistinct (erase k d)
  unfolding erase
  erase-IsDistinct k [] h = tt
  erase-IsDistinct k ((i, w) ∷ d) h =
      ground (arith, erase-IsDistinct k d h.1, lookup-erase-none k i d h.0)

  pub append-IsDistinct :
      (d : Dict V) (k : Text) (v : V)
      → IsDistinct d
      → lookup k d ≡ none
      → IsDistinct (d ++ (k, v) ∷ [])
  unfolding lookup
  append-IsDistinct [] k v h e = (refl, tt)
  append-IsDistinct ((i, w) ∷ d) k v h e =
      ground
        (arith, append-IsDistinct d k v h.1, lookup-append i d k v, str_eq_iff i k, str_eq_iff k i)

  pub assign-IsDistinct : (k : Text) (v : V) (d : Dict V) → IsDistinct d → IsDistinct (assign k v d)
  unfolding assign lookup
  assign-IsDistinct k v [] h = (refl, tt)
  assign-IsDistinct k v ((i, w) ∷ d) h =
      ground
        (arith, assign-IsDistinct k v d h.1, lookup-assign k i v d, str_eq_iff i k, str_eq_iff k i)

  pub length-append_one : (d : Dict V) (e : Text × V) → length (d ++ e ∷ []) ≡ length d + 1
  length-append_one [] e = omega arith
  length-append_one (x ∷ d) e = omega (arith, length-append_one d e)

  pub length-erase :
      (k : Text) (v : V) (d : Dict V) → lookup k d ≡ some v → length (erase k d) + 1 ≡ length d
  unfolding lookup erase
  length-erase k v [] h = ground arith
  length-erase k v ((i, w) ∷ d) h = ground (arith, length-erase k v d)

  pub length-erase-le : (k : Text) (d : Dict V) → length (erase k d) ≤ length d
  unfolding erase
  length-erase-le k [] = omega arith
  length-erase-le k ((i, w) ∷ d) = ground (arith, length-erase-le k d)

  pub length-assign :
      (k : Text) (v : V) (d : Dict V)
      → length (assign k v d) ≡ (if contains k d then length d else length d + 1)
  unfolding assign contains lookup
  length-assign k v [] = refl
  length-assign k v ((i, w) ∷ d) = ground (arith, length-assign k v d)

  -- A new key is written at the end.
  pub assign_absent :
      (k : Text) (v : V) (d : Dict V) → lookup k d ≡ none → assign k v d ≡ d ++ (k, v) ∷ []
  unfolding assign lookup
  assign_absent k v [] h = refl
  assign_absent k v ((i, w) ∷ d) h = ground (arith, assign_absent k v d)

  pub erase-assign : (k : Text) (v : V) (d : Dict V) → erase k (assign k v d) ≡ erase k d
  unfolding assign erase
  erase-assign k v [] = ground (arith, str_eq_refl k)
  erase-assign k v ((i, w) ∷ d) = ground (arith, erase-assign k v d)

  -- To write a key and move it to the end is to put it there, whether or not it was present.
  pub move_to_end-assign :
      (k : Text) (v : V) (d : Dict V)
      → move_to_end k (assign k v d) ≡ some (erase k d ++ (k, v) ∷ [])
  unfolding move_to_end
  move_to_end-assign k v d =
      ground (arith, lookup-assign k k v d, str_eq_refl k, erase-assign k v d)

  pub lookup-update-absent :
      (k : Text) (d e : Dict V) → lookup k e ≡ none → lookup k (update d e) ≡ lookup k d
  unfolding lookup update
  lookup-update-absent k d [] h = refl
  lookup-update-absent k d ((i, w) ∷ e) h =
      ground (arith, lookup-update-absent k (assign i w d) e, lookup-assign i k w d)

  -- What is written last is found.
  pub lookup-update :
      (k : Text) (v : V) (d e : Dict V)
      → IsDistinct e
      → lookup k e ≡ some v
      → lookup k (update d e) ≡ some v
  unfolding lookup update
  lookup-update k v d [] h found = ground arith
  lookup-update k v d ((i, w) ∷ e) h found = ground (
    arith,
    lookup-update k v (assign i w d) e h.1,
    lookup-update-absent k (assign i w d) e,
    lookup-assign i k w d,
    str_eq_iff i k,
    h.0,
  )

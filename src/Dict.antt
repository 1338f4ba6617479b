-- ===== src/Dict.antt =====
-- Python's `dict` and `OrderedDict` with text keys, as the list of their items in order.
pub mod Laws
use throttled_py.Common.{Bool, true, false, Option, none, some, List, [], ◌∷◌, ◌++◌, if◌then◌else◌}
use throttled_py.Common.Text.{Text, str_eq}

abbrev pub Dict {ℓ} : Type ℓ → Type ℓ
Dict V = List (Text × V)

module _ {ℓ} {V : Type ℓ} where
  -- `d.get(k)`
  unfoldable pub lookup : Text → Dict V → Option V
  lookup k [] = none
  lookup k ((j, v) ∷ d) = if str_eq j k then some v else lookup k d

  -- `k in d`
  unfoldable pub contains : Text → Dict V → Bool
  contains k d = elim (lookup k d) [ none ↦ false | some _ ↦ true ]

  -- `d[k] = v`: a present key keeps its place, a new one comes last
  unfoldable pub assign : Text → V → Dict V → Dict V
  assign k v [] = (k, v) ∷ []
  assign k v ((j, w) ∷ d) = if str_eq j k then (j, v) ∷ d else (j, w) ∷ assign k v d

  -- `d.pop(k, None)`
  unfoldable pub erase : Text → Dict V → Dict V
  erase k [] = []
  erase k ((j, w) ∷ d) = if str_eq j k then d else (j, w) ∷ erase k d

  -- `d.update(e)`
  unfoldable pub update : Dict V → Dict V → Dict V
  update d [] = d
  update d ((k, v) ∷ e) = update (assign k v d) e

  -- `d.move_to_end(k)`, which raises `KeyError` on a missing key (`none`)
  unfoldable pub move_to_end : Text → Dict V → Option (Dict V)
  move_to_end k d = elim (lookup k d) [ none ↦ none | some v ↦ some (erase k d ++ (k, v) ∷ []) ]

  -- `d.popitem(last=False)`: the oldest item, and the rest; `KeyError` on an empty dict (`none`)
  unfoldable pub popitem_first : Dict V → Option ((Text × V) × Dict V)
  popitem_first [] = none
  popitem_first (item ∷ d) = some (item, d)

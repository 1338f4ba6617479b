-- ===== src/Registry.antt =====
-- throttled/rate_limiter/base.py: the registry of rate-limiter classes, their construction with the
-- prefix of their storage keys, and the atomic actions that a limiter registers.
pub mod Keys
pub mod Actions
pub mod Builtin
use throttled_py.Action.{
  Outcome, ok, raised, setup_error, data_error, attribute_error, Action, bind,
}
use throttled_py.Common.{
  Bool, true, false, not, ◌&&◌, Option, none, some, List, [], ◌∷◌, ◌++◌, if◌then◌else◌,
}
use throttled_py.Common.Float.{Float}
use throttled_py.Common.Text.{Text, codes, str_eq}
use throttled_py.Common.Unicode.{Unicode, strip, starts_with, ends_with}
use throttled_py.Dict.{Dict, lookup, assign}
use throttled_py.Limiter.Runs.{Limit}
use throttled_py.Memory.{Backend}
use throttled_py.Quota.{Quota, RateLimitState, RateLimiter, Clock}

-- A subclass of `BaseAtomicAction`, by its attributes `TYPE` and `STORE_TYPE`.
pub record ActionClass : Type 0 where
  pub type : Text
  pub store_type : Text

-- the separator `:`
abbrev pub colon : Text
colon = codes ":"

abbrev pub is_empty {ℓ} : {A : Type ℓ} → List A → Bool
is_empty [] = true
is_empty (x ∷ xs) = false

-- `text in texts`
unfoldable pub member : Text → List Text → Bool
member t [] = false
member t (x ∷ xs) = if str_eq x t then true else member t xs

-- The elements of a list that are not in another one, as the difference of two sets.
unfoldable pub difference : List Text → List Text → List Text
unfolding member
difference [] ys = []
difference (x ∷ xs) ys = let rest = difference xs ys in if member x ys then rest else x ∷ rest

-- `_check_supported_atomic_action_types`
unfoldable pub check_supported : List Text → List Text → Outcome (Unit {0})
unfolding difference
check_supported supported registered =
    if is_empty (difference supported registered) then ok tt else raised setup_error

-- The loop of `_register_atomic_actions`, into the dict by type.
unfoldable pub register_actions : Text → List ActionClass → Dict ActionClass → Dict ActionClass
register_actions store_type [] actions = actions
register_actions store_type (a ∷ rest) actions =
    register_actions store_type rest
      (if str_eq a.store_type store_type then assign a.type a actions else actions)

-- the keys of a dict
abbrev pub keys {ℓ} : {V : Type ℓ} → Dict V → List Text
keys [] = []
keys ((k, v) ∷ d) = k ∷ keys d

-- `get_register_key`
abbrev pub register_key : Text → Text → Text
register_key namespace type = namespace ++ colon ++ type

module _ ⦃F : Float⦄ where
  -- A subclass of `BaseRateLimiter`: its attributes and its methods. `type` is its `Meta.type`, which a
  -- class may lack.
  pub record LimiterClass : Type 0 where
    pub type : Option Text
    pub key_prefix : Text
    pub key_schema_version : Text
    pub supported_types : List Text
    pub default_actions : List ActionClass
    pub limit : RateLimiter → Limit
    pub peek : RateLimiter → Text → Clock → Action Backend RateLimitState

  -- `register`, on the table of a registry with its namespace
  unfoldable pub register : Text → LimiterClass → Dict LimiterClass → Outcome (Dict LimiterClass)
  register namespace new_cls table = elim new_cls.type [
    | none ↦ raised setup_error
    | some type ↦ ok (assign (register_key namespace type) new_cls table)
  ]

  -- `RateLimiterMeta.__new__`: only a class with a base of the metaclass is registered
  unfoldable pub define_class :
      Text → Bool → LimiterClass → Dict LimiterClass → Outcome (Dict LimiterClass)
  unfolding register
  define_class namespace has_base new_cls table =
      if has_base then register namespace new_cls table else ok table

  unfoldable pub get : Text → Text → Dict LimiterClass → Outcome LimiterClass
  get namespace type table = elim (lookup (register_key namespace type) table) [
    | none ↦ raised setup_error
    | some cls ↦ ok cls
  ]

  -- A constructed limiter: its class, its configuration and its atomic actions by type.
  pub record Instance : Type 0 where
    pub cls : LimiterClass
    pub limiter : RateLimiter
    pub atomic_actions : Dict ActionClass

module _ ⦃U : Unicode⦄ where
  -- `validate_key_prefix`, on a string
  unfoldable pub validate_key_prefix : Text → Outcome (Unit {0})
  unfolding strip starts_with ends_with
  validate_key_prefix key_prefix =
      if not (is_empty (strip key_prefix))
        && not (starts_with b':' key_prefix)
        && not (ends_with b':' key_prefix)
      then ok tt
      else raised data_error

module _ ⦃F : Float⦄ ⦃U : Unicode⦄ where
  -- `_resolve_key_prefix`, by `Meta.type` and the key prefix that was given; the check comes before
  -- `Meta.type` is read.
  unfoldable pub resolve_with : LimiterClass → Option Text → Option Text → Outcome Text
  resolve_with cls none none = raised attribute_error
  resolve_with cls (some type) none = ok (cls.key_prefix ++ type ++ colon)
  resolve_with cls none (some key_prefix) =
      bind (validate_key_prefix key_prefix) (λ _. raised attribute_error)
  resolve_with cls (some type) (some key_prefix) =
      bind (validate_key_prefix key_prefix)
        (λ _. ok (key_prefix ++ colon ++ cls.key_schema_version ++ colon ++ type ++ colon))

  unfoldable pub resolve_key_prefix : LimiterClass → Option Text → Outcome Text
  unfolding resolve_with
  resolve_key_prefix cls key_prefix = resolve_with cls cls.type key_prefix

  -- `BaseRateLimiter.__init__`, on a store of the given type
  unfoldable pub make_limiter :
      LimiterClass → Quota → Text → List ActionClass → Option Text → Outcome Instance
  unfolding resolve_key_prefix register_actions check_supported
  make_limiter cls quota store_type additional key_prefix =
      bind (resolve_key_prefix cls key_prefix) λ prefix.
        let actions = register_actions store_type (cls.default_actions ++ additional) [] in
        bind (check_supported cls.supported_types (keys actions)) λ _. ok (record {
          cls = cls;
          limiter = record { quota = quota; key_prefix = prefix };
          atomic_actions = actions;
        })

-- ===== src/Registry/Actions.antt =====
-- The atomic actions of a constructed limiter.
use throttled_py.Action.{ok, ok-injective, bind-ok}
use throttled_py.Common.{◌≡◌, ap, true, Option, some, List, [], ◌∷◌, ◌++◌, Bool-cases, inl, inr}
use throttled_py.Common.Float.{Float}
use throttled_py.Common.Text.{Text, str_eq, eq_of_str_eq}
use throttled_py.Common.Unicode.{Unicode}
use throttled_py.Dict.{Dict, lookup, assign}
use throttled_py.Dict.Laws.{lookup-assign}
use throttled_py.Quota.{Quota}
use throttled_py.Registry.{
  ActionClass, is_empty, member, difference, keys, check_supported, LimiterClass, Instance,
  resolve_key_prefix, register_actions, make_limiter,
}

-- What a dict of actions holds belongs to the store, under its type.
abbrev BelongTo : Text → Dict ActionClass → Type 0
BelongTo store_type actions =
    (t : Text) (a : ActionClass)
    → lookup t actions ≡ some a
    → (a.type ≡ t) × (a.store_type ≡ store_type)

assign-BelongTo :
    (store_type : Text) (a : ActionClass) (actions : Dict ActionClass)
    → str_eq a.store_type store_type ≡ true
    → BelongTo store_type actions
    → BelongTo store_type (assign a.type a actions)
assign-BelongTo store_type a actions own h t x found = elim (Bool-cases (str_eq a.type t)) [
  | inl same ↦
      let e : some a ≡ some x = rw (lookup-assign a.type t a actions, same) at found in
      let same_type = eq_of_str_eq a.type t same in
      let same_store = eq_of_str_eq a.store_type store_type own in
      let it : a ≡ x = cc in rw (← it) (same_type, same_store)
  | inr other ↦ h t x (rw (lookup-assign a.type t a actions, other) at found)
]

register-BelongTo :
    (store_type : Text) (classes : List ActionClass) (actions : Dict ActionClass)
    → BelongTo store_type actions
    → BelongTo store_type (register_actions store_type classes actions)
unfolding register_actions
register-BelongTo store_type [] actions h = h
register-BelongTo store_type (a ∷ rest) actions h =
    elim (Bool-cases (str_eq a.store_type store_type)) [
      | inl own ↦ rw own (
          register-BelongTo store_type rest (assign a.type a actions)
            (assign-BelongTo store_type a actions own h))
      | inr other ↦ rw other (register-BelongTo store_type rest actions h)
    ]

member-difference :
    (t : Text) (xs ys : List Text)
    → is_empty (difference xs ys) ≡ true
    → member t xs ≡ true
    → member t ys ≡ true
unfolding difference member
member-difference t [] ys h m = absurd (cc m)
member-difference t (x ∷ xs) ys h m = elim (Bool-cases (member x ys)) [
  | inl there ↦ elim (Bool-cases (str_eq x t)) [
    | inl same ↦ rw (eq_of_str_eq x t same) at there
    | inr other ↦ member-difference t xs ys (rw there at h) (rw other at m)
  ]
  | inr missing ↦ absurd (cc (rw missing at h))
]

no_difference :
    (xs ys : List Text) (done : Unit {0})
    → check_supported xs ys ≡ ok done
    → is_empty (difference xs ys) ≡ true
unfolding check_supported
no_difference xs ys done h = elim (Bool-cases (is_empty (difference xs ys))) [
  | inl e ↦ e
  | inr e ↦ absurd (cc (rw e at h))
]

none_found : {V : Type 0} (t : Text) {v : V} → lookup {V = V} t [] ≡ some v → ⊥
unfolding lookup
none_found t h = cc

lookup_of_member :
    {V : Type 0} (t : Text) (d : Dict V)
    → member t (keys d) ≡ true
    → (v : V) × (lookup t d ≡ some v)
unfolding member lookup
lookup_of_member t [] m = absurd (cc m)
lookup_of_member t ((k, v) ∷ d) m = elim (Bool-cases (str_eq k t)) [
  | inl same ↦ (v, rw same)
  | inr other ↦ rw other (lookup_of_member t d (rw other at m))
]

module _ ⦃F : Float⦄ ⦃U : Unicode⦄ where
  -- Each action type that the class of a constructed limiter supports is registered in it, with an
  -- action of that type that belongs to the limiter's kind of store.
  pub make_limiter-registers :
      (cls : LimiterClass) (quota : Quota) (store_type : Text) (additional : List ActionClass)
      (key_prefix : Option Text) (t : Text) {i : Instance}
      → make_limiter cls quota store_type additional key_prefix ≡ ok i
      → member t cls.supported_types ≡ true
      → (a : ActionClass) × (lookup t i.atomic_actions ≡ some a)
        × (a.type ≡ t)
        × (a.store_type ≡ store_type)
  unfolding make_limiter
  make_limiter-registers cls quota store_type additional key_prefix t {i} h m =
      let (prefix, resolved, rest) = bind-ok (resolve_key_prefix cls key_prefix) _ h in
      let actions = register_actions store_type (cls.default_actions ++ additional) [] in
      let (done, checked, made) =
        bind-ok (check_supported cls.supported_types (keys actions)) _ rest in
      let there =
        member-difference t cls.supported_types (keys actions)
          (no_difference cls.supported_types (keys actions) done checked) m in
      let (a, found) = lookup_of_member t actions there in
      let own =
        register-BelongTo store_type (cls.default_actions ++ additional) []
          (λ t' a' e. absurd (none_found t' e)) t a found in
      let e = ap (λ x. x.atomic_actions) (ok-injective made) in (a, rw (← e) found, own.0, own.1)

-- ===== src/Registry/Keys.antt =====
-- Storage keys of limiters: limiters of different types do not share a key.
use throttled_py.Action.{ok, ok-injective, bind-ok}
use throttled_py.Common.{◌≡◌, ◌≢◌, refl, sym, ap, ◌∙◌, Option, none, some, List, [], ◌∷◌, ◌++◌}
use throttled_py.Common.Float.{Float}
use throttled_py.Common.Split.{Lacks, split_unique, append_cancel}
use throttled_py.Common.Text.{Text}
use throttled_py.Common.Unicode.{Unicode}
use throttled_py.Quota.{Quota, prepare_key}
use throttled_py.Registry.{
  ActionClass, colon, check_supported, keys, LimiterClass, Instance, validate_key_prefix,
  resolve_with, resolve_key_prefix, register_actions, make_limiter,
}
use mathlib.Core.List.{append_assoc}

module _ ⦃F : Float⦄ ⦃U : Unicode⦄ where
  -- The part of a resolved prefix that stands before the limiter type.
  abbrev root : LimiterClass → Option Text → Text
  root cls none = cls.key_prefix
  root cls (some key_prefix) = key_prefix ++ colon ++ cls.key_schema_version ++ colon

  root_eq :
      (cls cls' : LimiterClass) (key_prefix : Option Text)
      → (key_prefix ≡ none → cls.key_prefix ≡ cls'.key_prefix)
      → (key_prefix ≢ none → cls.key_schema_version ≡ cls'.key_schema_version)
      → root cls key_prefix ≡ root cls' key_prefix
  root_eq cls cls' none h v = h refl
  root_eq cls cls' (some p) h v = rw (v (λ e. cc))

  resolve_root :
      (cls : LimiterClass) (t : Text) (key_prefix : Option Text) {prefix : Text}
      → resolve_with cls (some t) key_prefix ≡ ok prefix
      → prefix ≡ root cls key_prefix ++ t ++ colon
  unfolding resolve_with
  resolve_root cls t none h = cc
  resolve_root cls t (some p) h = cc (bind-ok (validate_key_prefix p) _ h).2

  made_prefix :
      (cls : LimiterClass) (quota : Quota) (store_type : Text) (additional : List ActionClass)
      (key_prefix : Option Text) (t : Text) (i : Instance)
      → cls.type ≡ some t
      → make_limiter cls quota store_type additional key_prefix ≡ ok i
      → i.limiter.key_prefix ≡ root cls key_prefix ++ t ++ colon
  unfolding make_limiter resolve_key_prefix
  made_prefix cls quota store_type additional key_prefix t i typed h =
      let (prefix, resolved, rest) = bind-ok (resolve_key_prefix cls key_prefix) _ h in
      let actions = register_actions store_type (cls.default_actions ++ additional) [] in
      let (_, _, made) = bind-ok (check_supported cls.supported_types (keys actions)) _ rest in
      let e = ap (λ x. x.limiter.key_prefix) (ok-injective made) in
      sym e ∙ resolve_root cls t key_prefix (rw typed at resolved)

  regroup : (r t k : Text) → (r ++ t ++ colon) ++ k ≡ r ++ (t ++ b':' ∷ k)
  regroup r t k = simp append_assoc

  -- Two limiters that were made either with one key prefix, from classes of one schema version, or
  -- without a key prefix, from classes of one `KEY_PREFIX`, and whose types have no `:` in them, have a
  -- storage key in common only if their types are equal and the keys are.
  pub prepare_key-separate :
      (cls cls' : LimiterClass) (quota quota' : Quota) (store store' : Text)
      (additional additional' : List ActionClass) (key_prefix : Option Text) (t t' : Text)
      (i i' : Instance) (key key' : Text)
      → make_limiter cls quota store additional key_prefix ≡ ok i
      → make_limiter cls' quota' store' additional' key_prefix ≡ ok i'
      → cls.type ≡ some t
      → cls'.type ≡ some t'
      → (key_prefix ≡ none → cls.key_prefix ≡ cls'.key_prefix)
      → (key_prefix ≢ none → cls.key_schema_version ≡ cls'.key_schema_version)
      → Lacks b':' t
      → Lacks b':' t'
      → prepare_key i.limiter key ≡ prepare_key i'.limiter key'
      → (t ≡ t') × (key ≡ key')
  prepare_key-separate cls cls' quota quota' store store' additional additional' key_prefix t t' i
        i' key key' made made' typed typed' same version plain plain' e =
      let p = made_prefix cls quota store additional key_prefix t i typed made in
      let p' = made_prefix cls' quota' store' additional' key_prefix t' i' typed' made' in
      let roots = root_eq cls cls' key_prefix same version in
      let joined =
        rw
          (
            p,
            p',
            regroup (root cls key_prefix) t key,
            regroup (root cls' key_prefix) t' key',
            ← roots,
          )
          at e in
      split_unique b':' t t' key key' plain plain' (append_cancel (root cls key_prefix) joined)

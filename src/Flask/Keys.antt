-- ===== src/Flask/Keys.antt =====
-- throttled/contrib/flask/keys.py and key_funcs.py: the storage key of a request.
use throttled_py.Common.{
  ◌≡◌, refl, Option, none, some, List, [], ◌∷◌, ◌++◌, ◌==◌, arith, if◌then◌else◌,
}
use throttled_py.Common.Split.{Lacks, split_unique}
use throttled_py.Common.Text.{Text, codes}

-- `urllib.parse.quote(text, safe="")`: it escapes every character but the unreserved ones, so that no
-- `|` is left, and texts that differ stay different.
pub record Quoting : Type 0 where
  pub quote : Text → Text
  pub quote-Lacks : (t : Text) → Lacks b'|' (quote t)
  pub quote-injective : (s t : Text) → quote s ≡ quote t → s ≡ t

pub record KeyParts : Type 0 where
  pub method : Text
  pub route : Text
  pub principal : Text

-- what Flask tells of the active request
pub record Request : Type 0 where
  pub method : Text
  pub path : Text
  pub url_rule : Option Text
  pub remote_addr : Option Text
  pub blueprints : List Text

-- the address of the client, or `_UNKNOWN_CLIENT` where it is missing or empty
unfoldable pub remote_or : Option Text → Text
remote_or none = codes "unknown"
remote_or (some []) = codes "unknown"
remote_or (some (c ∷ addr)) = c ∷ addr

-- `get_remote_address`
unfoldable pub get_remote_address : Request → Text
unfolding remote_or
get_remote_address r = remote_or r.remote_addr

module _ ⦃Q : Quoting⦄ where
  -- the fields, joined by `_FIELD_SEPARATOR`
  unfoldable pub compose_key : KeyParts → Text
  compose_key parts =
      Q.quote parts.method ++ b'|' ∷ (Q.quote parts.route ++ b'|' ∷ Q.quote parts.principal)

  -- Requests have a storage key in common only if they agree in method, route and principal.
  pub compose_key-injective : (p q : KeyParts) → compose_key p ≡ compose_key q → p ≡ q
  unfolding compose_key
  compose_key-injective p q h =
      let (m, rest) =
        split_unique b'|' (Q.quote p.method) (Q.quote q.method)
          (Q.quote p.route ++ b'|' ∷ Q.quote p.principal)
          (Q.quote q.route ++ b'|' ∷ Q.quote q.principal) (Q.quote-Lacks p.method)
          (Q.quote-Lacks q.method) h in
      let (r, n) =
        split_unique b'|' (Q.quote p.route) (Q.quote q.route) (Q.quote p.principal)
          (Q.quote q.principal) (Q.quote-Lacks p.route) (Q.quote-Lacks q.route) rest in
      let methods = Q.quote-injective p.method q.method m in
      let routes = Q.quote-injective p.route q.route r in
      let principals = Q.quote-injective p.principal q.principal n in
      λ i. record { method = methods i; route = routes i; principal = principals i }

-- An escape with both laws: `|` becomes `%7C` and `%` becomes `%25`.
pub escape : Text → Text
escape [] = []
escape (c ∷ t) =
    if c == b'|'
    then b'%' ∷ b'7' ∷ b'C' ∷ escape t
    else if c == b'%'
    then b'%' ∷ b'2' ∷ b'5' ∷ escape t
    else c ∷ escape t

pub escape-Lacks : (t : Text) → Lacks b'|' (escape t)
unfolding escape
escape-Lacks [] = ground arith
escape-Lacks (c ∷ t) = ground (arith, escape-Lacks t)

pub escape-injective : (s t : Text) → escape s ≡ escape t → s ≡ t
unfolding escape
escape-injective [] [] h = refl
escape-injective [] (d ∷ t) h = ground arith
escape-injective (c ∷ s) [] h = ground arith
escape-injective (c ∷ s) (d ∷ t) h = ground (arith, escape-injective s t)

instance abbrev pub escaping : Quoting
escaping = record { quote = escape; quote-Lacks = escape-Lacks; quote-injective = escape-injective }

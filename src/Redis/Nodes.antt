-- ===== src/Redis/Nodes.antt =====
-- throttled/store/redis.py, `_parse_nodes`: the addresses in the network location of a URL. Numbers are
-- as long as `int` reads them.
pub mod RoundTrip
use throttled_py.Action.{Outcome, ok, raised, value_error, bind}
use throttled_py.Common.{
  ℕ, ◌+◌, ◌*◌, ◌==◌, Bool, true, false, Option, none, some, List, [], ◌∷◌, if◌then◌else◌,
}
use throttled_py.Common.Int.{ℤ, pos, ◌-ℤ◌}
use throttled_py.Common.Text.{Text}
use throttled_py.Common.Unicode.{Unicode, strip}

-- what stands behind the first `c`
unfoldable pub after_first : ℕ → Text → Option Text
after_first c [] = none
after_first c (d ∷ t) = if d == c then some t else after_first c t

-- `t[t.find(c) + 1 :]`, where a missing character is found at -1
unfoldable pub past_first : ℕ → Text → Text
unfolding after_first
past_first c t = elim (after_first c t) [ none ↦ t | some rest ↦ rest ]

cons_first : ℕ → List Text → List Text
cons_first c [] = (c ∷ []) ∷ []
cons_first c (t ∷ ts) = (c ∷ t) ∷ ts

-- `t.split(sep)`
unfoldable pub split : ℕ → Text → List Text
unfolding cons_first
split sep [] = [] ∷ []
split sep (c ∷ t) = let rest = split sep t in if c == sep then [] ∷ rest else cons_first c rest

-- `t.rsplit(sep, 1)`: the two parts, or `none` where the text is one part
unfoldable pub rsplit : ℕ → Text → Option (Text × Text)
rsplit sep [] = none
rsplit sep (c ∷ t) = elim (rsplit sep t) [
  | some (first, last) ↦ some (c ∷ first, last)
  | none ↦ if c == sep then some ([], t) else none
]

module _ ⦃U : Unicode⦄ where
  -- the digits of `int`, with single underscores between them
  unfoldable pub int_digits : Bool → ℕ → Text → Outcome ℕ
  int_digits after_digit acc [] = if after_digit then ok acc else raised value_error
  int_digits after_digit acc (c ∷ t) = elim (U.digit c) [
    | some d ↦ int_digits true (acc * 10 + d) t
    | none ↦
        if c == b'_'
        then (if after_digit then int_digits false acc t else raised value_error)
        else raised value_error
  ]

  -- `int` of a stripped text
  unfoldable pub signed : Text → Outcome ℤ
  unfolding int_digits
  signed [] = raised value_error
  signed (c ∷ t) =
      if c == b'-'
      then bind (int_digits false 0 t) (λ n. ok (pos 0 -ℤ pos n))
      else bind (int_digits false 0 (if c == b'+' then t else c ∷ t)) (λ n. ok (pos n))

  -- `int` of a text
  unfoldable pub int_of : Text → Outcome ℤ
  unfolding signed strip
  int_of t = signed (strip t)

  -- one round of the loop
  unfoldable pub node_of : ℤ → Text → Outcome (Text × ℤ)
  unfolding rsplit int_of
  node_of default_port node = elim (rsplit b':' node) [
    | none ↦ ok (node, default_port)
    | some (host, port) ↦ bind (int_of port) (λ n. ok (host, n))
  ]

  unfoldable pub nodes_of : ℤ → List Text → Outcome (List (Text × ℤ))
  unfolding node_of
  nodes_of default_port [] = ok []
  nodes_of default_port (node ∷ rest) =
      let others = nodes_of default_port rest in
      bind (node_of default_port node) λ n. bind others λ ns. ok (n ∷ ns)

  -- `_parse_nodes`, of the network location
  unfoldable pub parse_nodes : ℤ → Text → Outcome (List (Text × ℤ))
  unfolding past_first split nodes_of
  parse_nodes default_port netloc = nodes_of default_port (split b',' (past_first b'@' netloc))

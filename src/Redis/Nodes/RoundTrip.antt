-- ===== src/Redis/Nodes/RoundTrip.antt =====
-- Addresses that are written out are read back.
use throttled_py.Action.{ok, bind}
use throttled_py.Common.{
  ℕ, ◌+◌, ◌*◌, ◌-◌, ◌==◌, ◌≡◌, ◌≢◌, refl, ap, ◌∙◌, true, false, Option, none, some, List, [], ◌∷◌,
  ◌++◌, arith,
}
use throttled_py.Common.Decimal.{All, IsDigit, decimal-All, decimal-value, decimal-Led, value_from}
use throttled_py.Common.Int.{ℤ, pos}
use throttled_py.Common.Split.{Lacks}
use throttled_py.Common.Text.{Text, decimal}
use throttled_py.Common.Unicode.{Unicode}
use throttled_py.QuotaParser.Rendered.{strip-decimal}
use throttled_py.QuotaParser.Scan.{digit_read}
use throttled_py.Redis.Nodes.{
  after_first, past_first, split, rsplit, int_digits, signed, int_of, node_of, nodes_of,
  parse_nodes,
}

-- A host, and its port where one is written.
abbrev pub Node : Type 0
Node = Text × Option ℕ

abbrev node_text : Node → Text
node_text (host, none) = host
node_text (host, some port) = host ++ b':' ∷ decimal port

-- The addresses, one behind the other with a comma between them.
abbrev nodes_text : Node → List Node → Text
nodes_text n [] = node_text n
nodes_text n (next ∷ ns) = node_text n ++ b',' ∷ nodes_text next ns

-- The network location, with the credentials of a user if there are some.
abbrev pub netloc_text : Option Text → Node → List Node → Text
netloc_text none n ns = nodes_text n ns
netloc_text (some credentials) n ns = credentials ++ b'@' ∷ nodes_text n ns

-- No comma in a host, and no colon unless a port is written behind it.
abbrev PlainNode : Node → Type 0
PlainNode (host, none) = Lacks b',' host × Lacks b':' host
PlainNode (host, some port) = Lacks b',' host

abbrev AllPlain : List Node → Type 0
AllPlain [] = Unit
AllPlain (n ∷ ns) = PlainNode n × AllPlain ns

abbrev HostsLack : ℕ → List Node → Type 0
HostsLack c [] = Unit
HostsLack c (n ∷ ns) = Lacks c n.0 × HostsLack c ns

-- The first `@`, if there is one, ends the credentials.
abbrev Separated : Option Text → List Node → Type 0
Separated none ns = HostsLack b'@' ns
Separated (some credentials) ns = Lacks b'@' credentials

-- A network location that can be read back.
abbrev pub IsNetloc : Option Text → List Node → Type 0
IsNetloc credentials ns = AllPlain ns × Separated credentials ns

-- The port of an address, the default one where none is written.
abbrev port_or : ℤ → Option ℕ → ℤ
port_or default_port none = default_port
port_or default_port (some port) = pos port

abbrev pub addresses : ℤ → List Node → List (Text × ℤ)
addresses default_port [] = []
addresses default_port (n ∷ ns) = (n.0, port_or default_port n.1) ∷ addresses default_port ns

abbrev texts : List Node → List Text
texts [] = []
texts (n ∷ ns) = node_text n ∷ texts ns

digits-Lacks : (c : ℕ) (t : Text) → ((d : ℕ) → IsDigit d → d ≢ c) → All IsDigit t → Lacks c t
digits-Lacks c [] f h = tt
digits-Lacks c (d ∷ t) f h = (f d h.0, digits-Lacks c t f h.1)

Lacks-append : (c : ℕ) (s t : Text) → Lacks c s → Lacks c t → Lacks c (s ++ t)
Lacks-append c [] t h k = k
Lacks-append c (d ∷ s) t h k = (h.0, Lacks-append c s t h.1 k)

differs : (c d : ℕ) → d ≢ c → (d == c) ≡ false
differs c d h = ground arith

after_first-none : (c : ℕ) (t : Text) → Lacks c t → after_first c t ≡ none
unfolding after_first
after_first-none c [] h = refl
after_first-none c (d ∷ t) h = rw (differs c d h.0) (after_first-none c t h.1)

same : (c : ℕ) → (c == c) ≡ true
same c = ground arith

after_first-some : (c : ℕ) (s t : Text) → Lacks c s → after_first c (s ++ c ∷ t) ≡ some t
unfolding after_first
after_first-some c [] t h = rw (same c)
after_first-some c (d ∷ s) t h = rw (differs c d h.0) (after_first-some c s t h.1)

split-one : (c : ℕ) (s : Text) → Lacks c s → split c s ≡ s ∷ []
unfolding split
split-one c [] h = refl
split-one c (d ∷ s) h = rw (differs c d h.0, split-one c s h.1)

split-first : (c : ℕ) (s t : Text) → Lacks c s → split c (s ++ c ∷ t) ≡ s ∷ split c t
unfolding split
split-first c [] t h = rw (same c)
split-first c (d ∷ s) t h = rw (differs c d h.0, split-first c s t h.1)

rsplit-none : (c : ℕ) (t : Text) → Lacks c t → rsplit c t ≡ none
unfolding rsplit
rsplit-none c [] h = refl
rsplit-none c (d ∷ t) h = rw (rsplit-none c t h.1) (rw (differs c d h.0))

rsplit-last : (c : ℕ) (s t : Text) → Lacks c t → rsplit c (s ++ c ∷ t) ≡ some (s, t)
unfolding rsplit
rsplit-last c [] t h = rw (rsplit-none c t h) (rw (same c))
rsplit-last c (d ∷ s) t h = rw (rsplit-last c s t h)

node-one : (n : Node) → PlainNode n → Lacks b',' (node_text n)
node-one (host, none) h = h.0
node-one (host, some port) h =
    Lacks-append b',' host (b':' ∷ decimal port) h
      (omega arith, digits-Lacks b',' (decimal port) (λ d i. omega (arith, i)) (decimal-All port))

nodes-split :
    (n : Node) (ns : List Node) → AllPlain (n ∷ ns) → split b',' (nodes_text n ns) ≡ texts (n ∷ ns)
nodes-split n [] h = split-one b',' (node_text n) (node-one n h.0)
nodes-split n (next ∷ ns) h =
    split-first b',' (node_text n) (nodes_text next ns) (node-one n h.0)
    ∙ ap (λ ts. node_text n ∷ ts) (nodes-split next ns h.1)

node-Lacks : (n : Node) → Lacks b'@' n.0 → Lacks b'@' (node_text n)
node-Lacks (host, none) h = h
node-Lacks (host, some port) h =
    Lacks-append b'@' host (b':' ∷ decimal port) h
      (omega arith, digits-Lacks b'@' (decimal port) (λ d i. omega (arith, i)) (decimal-All port))

nodes-Lacks : (n : Node) (ns : List Node) → HostsLack b'@' (n ∷ ns) → Lacks b'@' (nodes_text n ns)
nodes-Lacks n [] h = node-Lacks n h.0
nodes-Lacks n (next ∷ ns) h =
    Lacks-append b'@' (node_text n) (b',' ∷ nodes_text next ns) (node-Lacks n h.0)
      (omega arith, nodes-Lacks next ns h.1)

netloc-past :
    (credentials : Option Text) (n : Node) (ns : List Node)
    → Separated credentials (n ∷ ns)
    → past_first b'@' (netloc_text credentials n ns) ≡ nodes_text n ns
unfolding past_first
netloc-past none n ns h =
    rw (past_first, after_first-none b'@' (nodes_text n ns) (nodes-Lacks n ns h))
netloc-past (some credentials) n ns h =
    rw (past_first, after_first-some b'@' credentials (nodes_text n ns) h)

module _ ⦃U : Unicode⦄ where
  int_digits-value :
      (acc : ℕ) (t : Text) → All IsDigit t → int_digits true acc t ≡ ok (value_from acc t)
  unfolding int_digits value_from
  int_digits-value acc [] h = refl
  int_digits-value acc (c ∷ t) h =
      rw (int_digits, digit_read c h.0) (int_digits-value (acc * 10 + (c - 48)) t h.1)

  first_digit :
      (c : ℕ) (t : Text)
      → All IsDigit (c ∷ t)
      → int_digits false 0 (c ∷ t) ≡ ok (value_from 0 (c ∷ t))
  unfolding int_digits value_from
  first_digit c t h = rw (int_digits, digit_read c h.0) (int_digits-value (0 * 10 + (c - 48)) t h.1)

  signed-value :
      (c : ℕ) (t : Text) → All IsDigit (c ∷ t) → signed (c ∷ t) ≡ ok (pos (value_from 0 (c ∷ t)))
  unfolding signed
  signed-value c t h =
      rw (differs b'-' c (omega (arith, h.0)), differs b'+' c (omega (arith, h.0)))
        (rw (first_digit c t h, bind))

  port_read : (port : ℕ) → int_of (decimal port) ≡ ok (pos port)
  unfolding int_of
  port_read port =
      let l = decimal-Led port in
      let read : signed (decimal port) ≡ ok (pos (value_from 0 (decimal port))) =
        rw l.split (signed-value l.first l.rest (rw l.split at (decimal-All port))) in
      rw (strip-decimal port) (rw (read, decimal-value port))

  node_read :
      (default_port : ℤ) (n : Node)
      → PlainNode n
      → node_of default_port (node_text n) ≡ ok (n.0, port_or default_port n.1)
  unfolding node_of
  node_read default_port (host, none) h = rw (node_of, rsplit-none b':' host h.1)
  node_read default_port (host, some port) h =
      let plain = digits-Lacks b':' (decimal port) (λ d i. omega (arith, i)) (decimal-All port) in
      rw (node_of, rsplit-last b':' host (decimal port) plain) (rw (port_read port, bind))

  nodes_read :
      (default_port : ℤ) (ns : List Node)
      → AllPlain ns
      → nodes_of default_port (texts ns) ≡ ok (addresses default_port ns)
  unfolding nodes_of
  nodes_read default_port [] h = refl
  nodes_read default_port (n ∷ ns) h =
      rw (node_read default_port n h.0, bind) (rw (nodes_read default_port ns h.1, bind))

  -- The addresses in a network location, written with or without credentials, are parsed to the same
  -- hosts and ports, with the default port where none is written, if no host has a comma, no host
  -- without a port has a colon, and the first `@` is the one behind the credentials, if there are some.
  pub parse_nodes-text :
      (default_port : ℤ) (credentials : Option Text) (n : Node) (ns : List Node)
      → IsNetloc credentials (n ∷ ns)
      → parse_nodes default_port (netloc_text credentials n ns)
        ≡ ok (addresses default_port (n ∷ ns))
  unfolding parse_nodes
  parse_nodes-text default_port credentials n ns h =
      rw (netloc-past credentials n ns h.1)
        (rw (nodes-split n ns h.0) (nodes_read default_port (n ∷ ns) h.0))

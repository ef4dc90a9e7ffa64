-- ===== src/Http.antt =====
-- What the program uses of net/http, net, net/netip and strings: requests, headers, texts that are
-- split and trimmed, and the addresses as an interface.
use Prim.Native.Char.{Char, code}
use golancer.Prelude.{
  ℕ, String, Bool, false, Option, List, [], ◌∷◌, ◌==◌, leb, ◌&&◌, ◌||◌, str_eq, if◌then◌else◌,
}

-- A header, by canonical keys.
abbrev pub Header : Type 0
Header = List (String × List String)

-- `Values`, `Get`, `Set` with several values, and `Del`.
abbrev pub values : String → Header → List String
values k [] = []
values k ((j, vs) ∷ h) = if str_eq j k then vs else values k h

abbrev pub get : String → Header → String
get k h = elim (values k h) [ [] ↦ "" | v ∷ vs ↦ v ]

abbrev pub put_values : String → List String → Header → Header
put_values k vs [] = (k, vs) ∷ []
put_values k vs ((j, ws) ∷ h) = if str_eq j k then (k, vs) ∷ h else (j, ws) ∷ put_values k vs h

abbrev pub delete : String → Header → Header
delete k [] = []
delete k ((j, ws) ∷ h) = if str_eq j k then delete k h else (j, ws) ∷ delete k h

-- `r.Body`: nil, one that can be read to the end, or one of which reading fails after some bytes.
pub data Body : Type 0 where
  no_body : Body
  readable : List ℕ → Body
  broken : List ℕ → Body

-- `tls` says that `r.TLS` is not nil.
pub record Request : Type 0 where
  pub method : String
  pub host : String
  pub remote_addr : String
  pub tls : Bool
  pub header : Header
  pub body : Body

-- Addresses and prefixes. `parse_addr` and `parse_prefix` give none for an error, `split_host` the
-- host of `net.SplitHostPort`. An `Addr` here is a valid one; the zero address is none.
pub record NetLib (Addr Prefix : Type 0) : Type 0 where
  pub split_host : String → Option String
  pub parse_addr : String → Option Addr
  pub unmap : Addr → Addr
  pub addr_string : Addr → String
  pub bit_len : Addr → ℕ
  pub parse_prefix : String → Option Prefix
  pub masked : Prefix → Prefix
  pub prefix_from : Addr → ℕ → Prefix
  pub prefix_contains : Prefix → Addr → Bool

-- `strings.Split` at one character.
abbrev cons_head : Char → List String → List String
cons_head c [] = String.◌∷◌ c String.[] ∷ []
cons_head c (w ∷ ws) = String.◌∷◌ c w ∷ ws

unfoldable pub split : ℕ → String → List String
split sep String.[] = String.[] ∷ []
split sep (String.◌∷◌ c s) =
    if code c == sep then String.[] ∷ split sep s else cons_head c (split sep s)

-- `unicode.IsSpace`
abbrev pub is_space : ℕ → Bool
is_space c =
    leb 9 c && leb c 13
    || c == 32
    || c == 0x85
    || c == 0xa0
    || c == 0x1680
    || leb 0x2000 c && leb c 0x200a
    || c == 0x2028
    || c == 0x2029
    || c == 0x202f
    || c == 0x205f
    || c == 0x3000

unfoldable pub trim_left : String → String
trim_left String.[] = String.[]
trim_left (String.◌∷◌ c s) = if is_space (code c) then trim_left s else String.◌∷◌ c s

abbrev cons_unless_blank : Char → String → String
cons_unless_blank c String.[] = if is_space (code c) then String.[] else String.◌∷◌ c String.[]
cons_unless_blank c (String.◌∷◌ d s) = String.◌∷◌ c (String.◌∷◌ d s)

unfoldable pub trim_right : String → String
trim_right String.[] = String.[]
trim_right (String.◌∷◌ c s) = cons_unless_blank c (trim_right s)

-- `strings.TrimSpace`
unfoldable pub trim_space : String → String
unfolding trim_left trim_right
trim_space s = trim_right (trim_left s)

-- `strings.Contains` of one character
unfoldable pub has_char : ℕ → String → Bool
has_char c String.[] = false
has_char c (String.◌∷◌ d s) = code d == c || has_char c s

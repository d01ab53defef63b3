-- ===== src/Subnet.antt =====
-- internal/subnet/subnet.go: subnets with a weight. Prefixes of the package netip are a parameter.
pub mod Printed
mod Tests
use gsnet.Common.{
  ℕ, ◌+◌, ◌-◌, ◌*◌, List, [], ◌∷◌, ◌++◌, ◌&&◌, ◌||◌, not, Bool, true, false, Option, none, some,
  Text, text_eq, leb, ltb, ◌==◌, if◌then◌else◌, length, is_some,
}
use gsnet.Common.Int.{ℤ, pos, negsuc, int_eq}
use gsnet.Strings.Decimal.{itoa, atoi}
use gsnet.Strings.Cut.{Parts, cut, split}

abbrev pub Mac : Type 0
Mac = List ℕ

-- What is called of `netip` and `net`, for a type of prefixes.
pub record Nets (P : Type 0) : Type 0 where
  -- `netip.Prefix{}`
  pub no_prefix : P
  pub contains : P → Text → Bool
  pub prefix_text : P → Text
  pub mac_text : Mac → Text
  pub parse_mac_strict : Text → Option Mac
  -- `netip.ParseAddr`, and the prefix of all its bits
  pub parse_addr : Text → Option P
  pub parse_prefix : Text → Option P
  -- `p.Masked() == p`
  pub is_masked : P → Bool

pub record Subnet (P : Type 0) : Type 0 where
  pub prefix : P
  pub mac : Option Mac
  pub weight : ℤ

abbrev pub default_weight : ℤ
default_weight = pos 10

-- The value of `strconv.ParseUint(p, 16, 8)` on one or two characters.
hex_digit : ℕ → Option ℕ
hex_digit c =
    if leb b'0' c && leb c b'9'
    then some (c - b'0')
    else if leb b'a' c && leb c b'f'
    then some (c - b'a' + 10)
    else if leb b'A' c && leb c b'F'
    then some (c - b'A' + 10)
    else none

two_digits : Option ℕ → Option ℕ → Option ℕ
two_digits (some a) (some b) = some (a * 16 + b)
two_digits _ _ = none

pub mac_byte : Text → Option ℕ
unfolding hex_digit two_digits
mac_byte (a ∷ []) = hex_digit a
mac_byte (a ∷ b ∷ []) = two_digits (hex_digit a) (hex_digit b)
mac_byte _ = none

cons_byte : Option ℕ → Option Mac → Option Mac
cons_byte (some b) (some bs) = some (b ∷ bs)
cons_byte _ _ = none

mac_bytes : List Text → Option Mac
unfolding mac_byte cons_byte
mac_bytes [] = some []
mac_bytes (p ∷ ps) = cons_byte (mac_byte p) (mac_bytes ps)

module _ {P : Type 0} (net : Nets P) where
  -- `ContainsIP` and `ContainsMAC`
  pub contains_ip : Subnet P → Text → Bool
  contains_ip s addr = net.contains s.prefix addr

  pub contains_mac : Subnet P → Mac → Bool
  contains_mac s mac = elim s.mac [ none ↦ false | some own ↦ text_eq own mac ]

  abbrev pub body_text : P → Option Mac → Text
  body_text prefix none = net.prefix_text prefix
  body_text prefix (some mac) = net.mac_text mac

  -- `String`
  pub print : Subnet P → Text
  print s =
      let body = body_text s.prefix s.mac in
      if not (int_eq s.weight (pos 0)) && not (int_eq s.weight default_weight)
      then body ++ (b'#' ∷ itoa s.weight)
      else body

  lenient_mac : Option Mac → List Text → Option Mac
  unfolding mac_bytes
  lenient_mac (some mac) parts = some mac
  lenient_mac none parts = if length parts == 6 then mac_bytes parts else none

  -- `parseMAC`
  pub parse_mac : Text → Option Mac
  unfolding lenient_mac
  parse_mac s = lenient_mac (net.parse_mac_strict s) (split b':' s)

  masked : Option P → Option P
  masked none = none
  masked (some p) = if net.is_masked p then some p else none

  with_prefix : Option P → Option (P × Option Mac)
  with_prefix none = none
  with_prefix (some p) = some (p, none)

  body_of : Option Mac → Text → Option (P × Option Mac)
  unfolding masked with_prefix
  body_of (some mac) s = some (net.no_prefix, some mac)
  body_of none s =
      if is_some (cut b'/' s)
      then with_prefix (masked (net.parse_prefix s))
      else with_prefix (net.parse_addr s)

  -- `parseBody`; the weight is set by `Parse`.
  pub parse_body : Text → Option (P × Option Mac)
  unfolding body_of
  parse_body s = body_of (parse_mac s) s

  weighed : Option (P × Option Mac) → Option ℤ → Option (Subnet P)
  weighed (some (prefix, mac)) (some weight) =
      some (record { prefix = prefix; mac = mac; weight = weight })
  weighed _ _ = none

  -- `splitWeight`, and the rest of `Parse`.
  parse_parts : Text → Parts → Option (Subnet P)
  unfolding weighed
  parse_parts s none = weighed (parse_body s) (some default_weight)
  parse_parts s (some (body, w)) = weighed (parse_body body) (atoi w)

  -- `Parse`
  pub parse : Text → Option (Subnet P)
  unfolding parse_parts
  parse s = parse_parts s (cut b'#' s)

-- ===== src/Stun/Parsed.antt =====
-- What `parseResponse` answers: it returns, only to its own request, and panics on some responses.
use Prim.Native.Nat.{bit_xor}
use gsnet.Common.{
  ℕ, zero, suc, ◌+◌, ◌*◌, ◌%◌, ◌<◌, ◌≤◌, ◌≡◌, ◌≢◌, refl, sym, ap, ◌∙◌, ◌∷◌, Bool, true, false,
  text_eq_iff, take, drop, length, arith, length-drop,
}
use gsnet.Stun.{
  Bytes, magic_cookie, AddrPort, Result, panicked, out_of_fuel, found, u16, u32, decode_xor_mapped,
  xor_family, decode_mapped, padded, attribute, scan, attributes, parse_response,
}

-- No loop was cut off.
abbrev returns : Result → Bool
returns out_of_fuel = false
returns _ = true

xor_family-returns :
    (family port : ℕ) (val magic : Bytes) → returns (xor_family family port val magic) ≡ true
unfolding xor_family
xor_family-returns family port (a ∷ b ∷ c ∷ d ∷ val) (m ∷ n ∷ o ∷ p ∷ more) = ground arith
xor_family-returns family port _ _ = ground arith

decode_xor_mapped-returns : (val magic : Bytes) → returns (decode_xor_mapped val magic) ≡ true
unfolding decode_xor_mapped
decode_xor_mapped-returns (r ∷ family ∷ a ∷ b ∷ rest) magic =
    xor_family-returns family (bit_xor (a * 256 + b) 0x2112) rest magic
decode_xor_mapped-returns _ magic = refl

decode_mapped-returns : (val : Bytes) → returns (decode_mapped val) ≡ true
unfolding decode_mapped
decode_mapped-returns (r ∷ family ∷ a ∷ b ∷ w ∷ x ∷ y ∷ z ∷ rest) = ground arith
decode_mapped-returns _ = refl

attribute-returns :
    (typ ln : ℕ) (rest magic : Bytes) (later : Result)
    → returns later ≡ true
    → returns (attribute typ ln rest magic later) ≡ true
unfolding attribute
attribute-returns typ ln rest magic later h =
    ground
      (arith, decode_xor_mapped-returns (take ln rest) magic, decode_mapped-returns (take ln rest))

scan-returns :
    (fuel : ℕ) (attrs magic : Bytes) → length attrs < fuel → returns (scan fuel attrs magic) ≡ true
unfolding scan
scan-returns zero attrs magic h = absurd (omega arith)
scan-returns (suc fuel) (a ∷ b ∷ c ∷ d ∷ rest) magic h =
    attribute-returns (a * 256 + b) (c * 256 + d) rest magic _ (
      scan-returns fuel (drop (padded (c * 256 + d)) rest) magic
        (omega (arith, length-drop (padded (c * 256 + d)) rest)))
scan-returns (suc fuel) _ magic h = refl

-- An answer to the request with this transaction ID: a binding response that carries it.
pub record Answers (b txid : Bytes) : Type 0 where
  pub long_enough : 20 ≤ length b
  pub kind : u16 b ≡ 0x0101
  pub cookie : u32 (drop 4 b) ≡ magic_cookie
  pub transaction : take 12 (drop 8 b) ≡ txid

-- `parseResponse` takes an address only from a binding response with the magic cookie that carries the
-- transaction ID of the request.
pub parse_response-Answers :
    (b txid : Bytes) (ap : AddrPort) → parse_response b txid ≡ found ap → Answers b txid
unfolding parse_response
parse_response-Answers b txid ap e = record {
  long_enough = ground arith;
  kind = ground arith;
  cookie = ground arith;
  transaction = ground (arith, text_eq_iff (take 12 (drop 8 b)) txid);
}

-- The attribute loop of `parseResponse` ends for every message: the fuel, one more than the bytes of
-- the attributes, is not used up.
pub parse_response-returns : (b txid : Bytes) → parse_response b txid ≢ out_of_fuel
unfolding parse_response
parse_response-returns b txid e =
    let h =
      scan-returns (suc (length (attributes b))) (attributes b) (take 4 (drop 4 b)) (omega arith) in
    ground (arith, h)

unpadded-panics :
    (typ ln : ℕ) (val magic : Bytes) (later : Result)
    → ln ≡ length val
    → length val % 4 ≢ 0
    → typ ≢ 0x20
    → typ ≢ 1
    → attribute typ ln val magic later ≡ panicked
unfolding attribute
unpadded-panics typ ln val magic later size odd other kind = ground arith

-- A response to the request whose only attribute is of another kind than the two that are read, and
-- whose value fills the message but is not a multiple of four bytes long, makes `parseResponse` panic.
pub unpadded_attribute_panics :
    (b txid val : Bytes) (x y m n : ℕ)
    → Answers b txid
    → 20 + u16 (drop 2 b) ≤ length b
    → attributes b ≡ x ∷ y ∷ m ∷ n ∷ val
    → length val ≡ m * 256 + n
    → length val % 4 ≢ 0
    → x * 256 + y ≢ 0x20
    → x * 256 + y ≢ 1
    → parse_response b txid ≡ panicked
unfolding parse_response scan
unpadded_attribute_panics b txid val x y m n h fits only size odd other kind =
    let last =
      unpadded-panics (x * 256 + y) (m * 256 + n) val (take 4 (drop 4 b)) _ (sym size) odd other
        kind in
    let looped : scan (suc (length (attributes b))) (attributes b) (take 4 (drop 4 b)) ≡ panicked =
      ap (λ a. scan (suc (length (attributes b))) a (take 4 (drop 4 b))) only ∙ last in
    ground (
      arith,
      looped,
      h.long_enough,
      h.kind,
      h.cookie,
      h.transaction,
      text_eq_iff (take 12 (drop 8 b)) txid,
    )

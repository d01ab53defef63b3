-- ===== src/Stun.antt =====
-- internal/stun/stun.go: the binding request and the response to it. Messages are lists of bytes.
pub mod Parsed
mod Tests
use Prim.Native.Nat.{bit_xor}
use gsnet.Common.{
  ℕ, zero, suc, ◌+◌, ◌-◌, ◌*◌, ◌%◌, ◌^◌, List, [], ◌∷◌, ◌++◌, Bool, true, false, not, text_eq, leb,
  ltb, ◌==◌, if◌then◌else◌, take, drop, length,
}

abbrev pub Bytes : Type 0
Bytes = List ℕ

abbrev pub magic_cookie : ℕ
magic_cookie = 0x2112A442

pub record AddrPort : Type 0 where
  pub ip : Bytes
  pub port : ℕ

pub data Error : Type 0 where
  read_failed short_response not_binding_response bad_magic wrong_tx_id length_exceeds overruns
        missing :
      Error
  short_xor_mapped short_xor_v4 short_xor_v6 xor_v6_unsupported unknown_family : Error
  short_mapped family_unsupported : Error

-- `panicked` is a slice out of range.
pub data Result : Type 0 where
  panicked out_of_fuel : Result
  err : Error → Result
  found : AddrPort → Result

-- `binary.BigEndian.Uint16` and `Uint32`; the callers check the length.
abbrev pub u16 : Bytes → ℕ
u16 (a ∷ b ∷ rest) = a * 256 + b
u16 _ = 0

abbrev pub u32 : Bytes → ℕ
u32 (a ∷ b ∷ c ∷ d ∷ rest) = a * 2 ^ 24 + b * 2 ^ 16 + c * 2 ^ 8 + d
u32 _ = 0

-- The switch of `decodeXorMapped`, behind the four bytes that hold family and port.
xor_family : ℕ → ℕ → Bytes → Bytes → Result
xor_family family port (a ∷ b ∷ c ∷ d ∷ rest) (m ∷ n ∷ o ∷ p ∷ more) =
    if family == 1
    then found
        (record { ip = bit_xor a m ∷ bit_xor b n ∷ bit_xor c o ∷ bit_xor d p ∷ []; port = port })
    else if family == 2
    then (if ltb (length rest) 12 then err short_xor_v6 else err xor_v6_unsupported)
    else err unknown_family
xor_family family port _ magic =
    if family == 1
    then err short_xor_v4
    else if family == 2
    then err short_xor_v6
    else err unknown_family

-- `decodeXorMapped`
pub decode_xor_mapped : Bytes → Bytes → Result
unfolding xor_family
decode_xor_mapped (r ∷ family ∷ a ∷ b ∷ rest) magic =
    xor_family family (bit_xor (a * 256 + b) 0x2112) rest magic
decode_xor_mapped _ magic = err short_xor_mapped

-- `decodeMapped`
pub decode_mapped : Bytes → Result
decode_mapped (r ∷ family ∷ a ∷ b ∷ w ∷ x ∷ y ∷ z ∷ rest) =
    if family == 1
    then found (record { ip = w ∷ x ∷ y ∷ z ∷ []; port = a * 256 + b })
    else err family_unsupported
decode_mapped _ = err short_mapped

-- The padded length of an attribute's value.
abbrev pub padded : ℕ → ℕ
padded ln = ln + (4 - ln % 4) % 4

-- One attribute, with what the loop gives for those behind it.
pub attribute : ℕ → ℕ → Bytes → Bytes → Result → Result
unfolding decode_xor_mapped decode_mapped
attribute typ ln rest magic later =
    if ltb (length rest) ln
    then err overruns
    else if typ == 0x20
    then decode_xor_mapped (take ln rest) magic
    else if typ == 1
    then decode_mapped (take ln rest)
    else if leb (padded ln) (length rest)
    then later
    else panicked

-- The loop over the attributes.
pub scan : ℕ → Bytes → Bytes → Result
unfolding attribute
scan zero attrs magic = out_of_fuel
scan (suc fuel) (a ∷ b ∷ c ∷ d ∷ rest) magic =
    let ln = c * 256 + d in
    attribute (a * 256 + b) ln rest magic (scan fuel (drop (padded ln) rest) magic)
scan (suc fuel) _ magic = err missing

-- The attributes, `b[20 : 20+msgLen]`.
abbrev pub attributes : Bytes → Bytes
attributes b = take (u16 (drop 2 b)) (drop 20 b)

-- `parseResponse`, with a transaction ID of 12 bytes.
unfoldable pub parse_response : Bytes → Bytes → Result
unfolding scan
parse_response b txid =
    if ltb (length b) 20
    then err short_response
    else if not (u16 b == 0x0101)
    then err not_binding_response
    else if not (u32 (drop 4 b) == magic_cookie)
    then err bad_magic
    else if not (text_eq (take 12 (drop 8 b)) txid)
    then err wrong_tx_id
    else if ltb (length b) (20 + u16 (drop 2 b))
    then err length_exceeds
    else scan (suc (length (attributes b))) (attributes b) (take 4 (drop 4 b))

-- The request that `Query` sends.
abbrev pub binding_request : Bytes → Bytes
binding_request txid = 0 ∷ 1 ∷ 0 ∷ 0 ∷ 0x21 ∷ 0x12 ∷ 0xA4 ∷ 0x42 ∷ txid

is_unrelated : Result → Bool
is_unrelated (err wrong_tx_id) = true
is_unrelated _ = false

-- The loop of `Query`, on the datagrams that arrive before the deadline.
pub query : List Bytes → Bytes → Result
unfolding is_unrelated
query [] txid = err read_failed
query (b ∷ bs) txid =
    let rest = query bs txid in
    let ap = parse_response b txid in if is_unrelated ap then rest else ap

-- ===== src/Stun/Tests.antt =====
-- A response with an XOR-MAPPED-ADDRESS, and one with an unknown attribute of one byte.
use gsnet.Common.{ℕ, ◌≡◌, ◌≢◌, refl, [], ◌∷◌, ◌++◌, text_eq, arith}
use gsnet.Stun.{Bytes, AddrPort, found, panicked, out_of_fuel, parse_response}
use gsnet.Stun.Parsed.{Answers, parse_response-returns, unpadded_attribute_panics}

abbrev txid : Bytes
txid = 1 ∷ 2 ∷ 3 ∷ 4 ∷ 5 ∷ 6 ∷ 7 ∷ 8 ∷ 9 ∷ 10 ∷ 11 ∷ 12 ∷ []

abbrev header : ℕ → Bytes
header size = 1 ∷ 1 ∷ 0 ∷ size ∷ 0x21 ∷ 0x12 ∷ 0xA4 ∷ 0x42 ∷ txid

abbrev mapped : Bytes
mapped = header 12 ++ (0 ∷ 0x20 ∷ 0 ∷ 8 ∷ 0 ∷ 1 ∷ 0x23 ∷ 0x9D ∷ 0xE1 ∷ 0x12 ∷ 0xA6 ∷ 0x43 ∷ [])

abbrev address : AddrPort
address = record { ip = 192 ∷ 0 ∷ 2 ∷ 1 ∷ []; port = 655 }

abbrev unpadded : Bytes
unpadded = header 5 ++ (0x80 ∷ 0x22 ∷ 0 ∷ 1 ∷ 7 ∷ [])

parsed : parse_response mapped txid ≡ found address
unfolding parse_response text_eq
parsed = refl

parse_response-returns_example : parse_response mapped txid ≢ out_of_fuel
parse_response-returns_example = parse_response-returns mapped txid

unpadded-Answers : Answers unpadded txid
unpadded-Answers = record {
  long_enough = omega arith;
  kind = refl;
  cookie = refl;
  transaction = refl;
}

unpadded_attribute_panics_example : parse_response unpadded txid ≡ panicked
unpadded_attribute_panics_example =
    unpadded_attribute_panics unpadded txid (7 ∷ []) 0x80 0x22 0 1 unpadded-Answers (omega arith)
      refl refl (omega arith) (omega arith) (omega arith)

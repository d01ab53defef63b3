-- ===== src/Gossip/Message.antt =====
-- internal/gossip/message.go: envelopes and their payloads. Strings are lists of bytes here.
pub mod Signing
use gsnet.Common.{
  ℕ, ◌+◌, ◌-◌, ◌/◌, ◌%◌, ◌^◌, ◌≡◌, List, [], ◌∷◌, ◌++◌, ◌||◌, Bool, true, false, Option, none, some,
  Text, text_eq, codes, if◌then◌else◌,
}
use gsnet.Common.Int.{ℤ, pos, negsuc}
use gsnet.Strings.Decimal.{digits}

abbrev pub Bytes : Type 0
Bytes = List ℕ

-- The kinds that the code names; `unknown` is any other string.
pub data Kind : Type 0 where
  hello add_edge del_edge add_subnet del_subnet add_node del_node ping pong unknown : Kind

-- Which case of a `switch` on the kind a string selects.
unfoldable pub kind_of : Text → Kind
unfolding text_eq
kind_of k =
    if text_eq k (codes "hello")
    then Kind.hello
    else if text_eq k (codes "add_edge")
    then Kind.add_edge
    else if text_eq k (codes "del_edge")
    then Kind.del_edge
    else if text_eq k (codes "add_subnet")
    then Kind.add_subnet
    else if text_eq k (codes "del_subnet")
    then Kind.del_subnet
    else if text_eq k (codes "add_node")
    then Kind.add_node
    else if text_eq k (codes "del_node")
    then Kind.del_node
    else if text_eq k (codes "ping")
    then Kind.ping
    else if text_eq k (codes "pong")
    then Kind.pong
    else Kind.unknown

-- `ts` is an `int64`.
pub record Envelope : Type 0 where
  pub id : Text
  pub origin : Text
  pub kind : Text
  pub ts : ℤ
  pub payload : Bytes
  pub signature : Bytes

-- The bits of an `int64`, as an unsigned number.
abbrev pub bits64 : ℤ → ℕ
bits64 (pos n) = n
bits64 (negsuc n) = 2 ^ 64 - 1 - n

-- `byte(ts >> 56)` down to `byte(ts)`.
pub ts_bytes : ℤ → Bytes
ts_bytes ts =
    let n = bits64 ts in
    n / 2 ^ 56 % 256
    ∷ n / 2 ^ 48 % 256
    ∷ n / 2 ^ 40 % 256
    ∷ n / 2 ^ 32 % 256
    ∷ n / 2 ^ 24 % 256
    ∷ n / 2 ^ 16 % 256
    ∷ n / 2 ^ 8 % 256
    ∷ n % 256
    ∷ []

unfoldable pub signing_bytes : Envelope → Bytes
unfolding ts_bytes
signing_bytes e =
    e.id ++ (0 ∷ (e.origin ++ (0 ∷ (e.kind ++ (0 ∷ (ts_bytes e.ts ++ (0 ∷ e.payload)))))))

pub record Hello : Type 0 where
  pub name : Text
  pub ed25519_public : Bytes
  pub wg_public : Text
  pub endpoint : Text
  pub inner_addr : Text
  pub underlay_addr : Text

pub record AddEdge : Type 0 where
  pub from : Text
  pub to : Text
  pub weight : ℤ

pub record DelEdge : Type 0 where
  pub from : Text
  pub to : Text

pub record AddSubnet : Type 0 where
  pub owner : Text
  pub subnet : Text

pub record DelSubnet : Type 0 where
  pub owner : Text
  pub subnet : Text

-- `Decode`, on what `json.Unmarshal` gave.
pub decode : Option Envelope → Option Envelope
decode none = none
decode (some e) = if text_eq e.kind [] || text_eq e.origin [] then none else some e

-- `NewID`
pub new_id : Text → ℕ → Text
new_id origin seq = origin ++ (b'/' ∷ digits seq)

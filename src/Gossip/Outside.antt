-- ===== src/Gossip/Outside.antt =====
-- What the gossip plane calls: `encoding/json`, the Ed25519 and base64 packages, `net/netip`, and the
-- transport. An address is the list of its bytes; `none` stands for the zero `netip.Addr` or an error.
use gsnet.Common.{◌≡◌, Bool, true, Option, some, Text}
use gsnet.Gossip.Message.{Bytes, Envelope, Hello, AddEdge, DelEdge, AddSubnet, DelSubnet}

abbrev pub Addr : Type 0
Addr = Bytes

pub record Outside : Type 0 where
  pub marshal_hello : Hello → Option Bytes
  pub marshal_add_edge : AddEdge → Option Bytes
  pub marshal_del_edge : DelEdge → Option Bytes
  pub marshal_add_subnet : AddSubnet → Option Bytes
  pub marshal_del_subnet : DelSubnet → Option Bytes
  pub unmarshal_hello : Bytes → Option Hello
  pub unmarshal_add_edge : Bytes → Option AddEdge
  pub unmarshal_del_edge : Bytes → Option DelEdge
  pub unmarshal_add_subnet : Bytes → Option AddSubnet
  pub unmarshal_del_subnet : Bytes → Option DelSubnet
  -- `ed25519.Sign(private, message)` and `ed25519.Verify(public, message, signature)`
  pub ed_sign : Bytes → Bytes → Bytes
  pub ed_verify : Bytes → Bytes → Bytes → Bool
  -- `base64.StdEncoding.DecodeString`
  pub base64_decode : Bytes → Option Bytes
  -- `netip.ParsePrefix(s).Addr()` and `netip.ParseAddr(s)`
  pub parse_prefix_addr : Text → Option Addr
  pub parse_addr : Text → Option Addr
  -- Whether `transport.Broadcast` returns no error for this envelope.
  pub broadcast_ok : Envelope → Bool

-- `json.Unmarshal` reads back what `json.Marshal` wrote.
pub record IsJson (w : Outside) : Type 0 where
  pub hello : (h : Hello) {b : Bytes} → w.marshal_hello h ≡ some b → w.unmarshal_hello b ≡ some h
  pub add_edge :
      (e : AddEdge) {b : Bytes} → w.marshal_add_edge e ≡ some b → w.unmarshal_add_edge b ≡ some e
  pub del_edge :
      (e : DelEdge) {b : Bytes} → w.marshal_del_edge e ≡ some b → w.unmarshal_del_edge b ≡ some e
  pub add_subnet :
      (s : AddSubnet) {b : Bytes}
      → w.marshal_add_subnet s ≡ some b
      → w.unmarshal_add_subnet b ≡ some s
  pub del_subnet :
      (s : DelSubnet) {b : Bytes}
      → w.marshal_del_subnet s ≡ some b
      → w.unmarshal_del_subnet b ≡ some s

-- `public` verifies what `private` signs.
abbrev pub KeyPair : Outside → Bytes → Bytes → Type 0
KeyPair w private public = (m : Bytes) → w.ed_verify public m (w.ed_sign private m) ≡ true

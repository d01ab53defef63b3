-- ===== src/Gossip/Plane.antt =====
-- internal/gossip/plane.go: the state of the plane and its operations. Each holds the mutex where it
-- reads or writes the maps, so `receive` and `originate` are the runs in which no other call comes in
-- between; `Interleaving` takes them apart. Calls of the transport and of the listener are the events
-- that an operation returns, in order.
pub mod Shape
pub mod Interleaving
pub mod Ids
pub mod Announce
pub mod Authentic
pub mod Topology
pub mod Claims
pub mod Access
mod Tests
use gsnet.Common.{
  ℕ, ◌≡◌, List, [], ◌∷◌, ◌++◌, ◌||◌, ◌&&◌, not, Bool, true, false, Option, none, some, Text,
  text_eq, codes, length, ◌==◌, leb, if◌then◌else◌,
}
use gsnet.Common.Int.{ℤ, pos, negsuc}
use gsnet.Dict.{Dict, get, put, delete, values}
use gsnet.Graph
use gsnet.Graph.{Graph}
use gsnet.Graph.Removal.{del_incident}
use gsnet.Gossip.Message.{
  Bytes, Kind, kind_of, Envelope, signing_bytes, Hello, AddEdge, DelEdge, AddSubnet, DelSubnet,
}
use gsnet.Gossip.Outside.{Addr, Outside}

-- `listening` says whether a listener is installed.
pub record Plane : Type 0 where
  pub node_name : Text
  pub g : Graph
  pub seen : Dict ℤ
  pub outbox : Dict Envelope
  pub listening : Bool
  pub ed_priv : Option Bytes
  pub pub_key_for : Option (Text → Option Bytes)
  pub pub_keys : Dict Bytes
  pub endpoints : Dict Text
  pub inners : Dict Addr
  pub underlays : Dict Addr

pub data Event : Type 0 where
  notify broadcast : Envelope → Event

-- What `Receive` and `originate` return. `sent ok` hands on the result of `Broadcast`.
pub data Reply : Type 0 where
  marshal_failed failed_verification already_seen : Reply
  sent : Bool → Reply

abbrev pub Step : Type 0
Step = Plane × List Event × Reply

abbrev pub new_plane : Text → Graph → Plane
new_plane name g = record {
  node_name = name;
  g = g;
  seen = [];
  outbox = [];
  listening = false;
  ed_priv = none;
  pub_key_for = none;
  pub_keys = [];
  endpoints = [];
  inners = [];
  underlays = [];
}

-- `a <= b` on `int64`.
abbrev pub leb_ℤ : ℤ → ℤ → Bool
leb_ℤ (pos a) (pos b) = leb a b
leb_ℤ (pos a) (negsuc b) = false
leb_ℤ (negsuc a) (pos b) = true
leb_ℤ (negsuc a) (negsuc b) = leb b a

-- `prev, ok := p.seen[id]; ok && ts <= prev`
abbrev pub stale : Option ℤ → ℤ → Bool
stale none ts = false
stale (some prev) ts = leb_ℤ ts prev

unfoldable pub claim : Plane → Text → ℤ → Plane × Bool
claim p id ts =
    if stale (get p.seen id) ts then (p, false) else (record p { seen = put p.seen id ts }, true)

-- The key length that `Ed25519Public.Verify` and the parsers ask for.
abbrev pub public_key_size : ℕ
public_key_size = 32

-- The key of `pubLookup`, or the learned one where that has none or an empty one.
pub choose_key : Option Bytes → Option Bytes → Option Bytes
choose_key none learned = learned
choose_key (some []) learned = learned
choose_key (some (b ∷ bs)) learned = some (b ∷ bs)

-- `m[k] = v` where v is valid.
abbrev pub put_valid {ℓ} : {V : Type ℓ} → Dict V → Text → Option V → Dict V
put_valid d k none = d
put_valid d k (some v) = put d k v

abbrev pub nonempty : Text → Option Text
nonempty [] = none
nonempty (c ∷ cs) = some (c ∷ cs)

-- The stable ID of each fact.
abbrev pub hello_id : Plane → Text
hello_id p = p.node_name ++ codes "/hello"

abbrev pub edge_id : Plane → Text → Text
edge_id p to = p.node_name ++ (codes "/edge/" ++ to)

abbrev pub subnet_id : Plane → Text → Text
subnet_id p subnet = p.node_name ++ (codes "/subnet/" ++ subnet)

module _ (w : Outside) where
  -- `parseHelloAddr`
  pub parse_hello_addr : Text → Option Addr
  parse_hello_addr s =
      if text_eq s []
      then none
      else elim (w.parse_prefix_addr s) [ some a ↦ some a | none ↦ w.parse_addr s ]

  sized_key : Option Bytes → Option Bytes
  sized_key none = none
  sized_key (some b) = if length b == public_key_size then some b else none

  -- `keys.ParseEd25519PublicBase64ish`
  pub parse_key_ish : Bytes → Option Bytes
  unfolding sized_key
  parse_key_ish b = if length b == public_key_size then some b else sized_key (w.base64_decode b)

  -- `keys.Ed25519Public.Verify`
  pub key_verify : Bytes → Bytes → Bytes → Bool
  key_verify key msg sig = length key == public_key_size && w.ed_verify key msg sig

  check_key : Option Bytes → Envelope → Bool
  unfolding key_verify
  check_key none env = false
  check_key (some []) env = false
  check_key (some (b ∷ bs)) env = key_verify (b ∷ bs) (signing_bytes env) env.signature

  verify_with : Option (Text → Option Bytes) → Option Bytes → Envelope → Bool
  unfolding check_key choose_key
  verify_with none none env = true
  verify_with none (some key) env = check_key (some key) env
  verify_with (some lookup) learned env = check_key (choose_key (lookup env.origin) learned) env

  pub verify : Plane → Envelope → Bool
  unfolding verify_with
  verify p env = verify_with p.pub_key_for (get p.pub_keys env.origin) env

  pub learn_node : Plane → Hello → Plane
  unfolding parse_key_ish parse_hello_addr
  learn_node p h = record p {
    g = Graph.add_node p.g h.name;
    pub_keys = put_valid p.pub_keys h.name (parse_key_ish h.ed25519_public);
    endpoints = put_valid p.endpoints h.name (nonempty h.endpoint);
    inners = put_valid p.inners h.name (parse_hello_addr h.inner_addr);
    underlays = put_valid p.underlays h.name (parse_hello_addr h.underlay_addr);
  }

  pub forget_node : Plane → Text → Plane
  forget_node p name = record p {
    g = del_incident p.g name (Graph.edges p.g);
    endpoints = delete p.endpoints name;
    inners = delete p.inners name;
    underlays = delete p.underlays name;
    pub_keys = delete p.pub_keys name;
  }

  apply_add_node : Plane → Option Hello → Option Plane
  unfolding learn_node
  apply_add_node p none = none
  apply_add_node p (some h) = some (learn_node p h)

  apply_del_node : Plane → Option Hello → Option Plane
  unfolding forget_node
  apply_del_node p none = none
  apply_del_node p (some h) = if text_eq h.name [] then none else some (forget_node p h.name)

  apply_add_edge : Plane → Option AddEdge → Option Plane
  apply_add_edge p none = none
  apply_add_edge p (some e) =
      some (record p {
        g = Graph.add_edge p.g (record { from = e.from; to = e.to; weight = e.weight });
      })

  apply_del_edge : Plane → Option DelEdge → Option Plane
  apply_del_edge p none = none
  apply_del_edge p (some e) = some (record p { g = Graph.del_edge p.g e.from e.to })

  apply_add_subnet : Plane → Option AddSubnet → Option Plane
  apply_add_subnet p none = none
  apply_add_subnet p (some s) = some (record p { g = Graph.add_subnet p.g s.owner s.subnet })

  apply_del_subnet : Plane → Option DelSubnet → Option Plane
  apply_del_subnet p none = none
  apply_del_subnet p (some s) = some (record p { g = Graph.del_subnet p.g s.owner s.subnet })

  -- The `switch` of `apply`. `none` is its early `return`, before the listener is called.
  pub apply_kind : Plane → Kind → Bytes → Option Plane
  unfolding apply_add_node apply_del_node apply_add_edge apply_del_edge apply_add_subnet
      apply_del_subnet
  apply_kind p Kind.add_node b = apply_add_node p (w.unmarshal_hello b)
  apply_kind p Kind.del_node b = apply_del_node p (w.unmarshal_hello b)
  apply_kind p Kind.add_edge b = apply_add_edge p (w.unmarshal_add_edge b)
  apply_kind p Kind.del_edge b = apply_del_edge p (w.unmarshal_del_edge b)
  apply_kind p Kind.add_subnet b = apply_add_subnet p (w.unmarshal_add_subnet b)
  apply_kind p Kind.del_subnet b = apply_del_subnet p (w.unmarshal_del_subnet b)
  apply_kind p _ b = some p

  tell : Envelope → Plane → Option Plane → Plane × List Event
  tell env p none = (p, [])
  tell env p (some q) = (q, if q.listening then notify env ∷ [] else [])

  pub apply : Plane → Envelope → Plane × List Event
  unfolding apply_kind tell
  apply p env = tell env p (apply_kind p (kind_of env.kind) env.payload)

  unfoldable pub apply_and_broadcast : Plane → Envelope → Step
  unfolding apply
  apply_and_broadcast p env =
      let (q, events) = apply p env in (q, events ++ broadcast env ∷ [], sent (w.broadcast_ok env))

  pub receive : Plane → Envelope → Step
  unfolding verify claim apply_and_broadcast
  receive p env =
      let (q, won) = claim p env.id env.ts in
      if not (verify p env)
      then (p, [], failed_verification)
      else if not won
      then (q, [], already_seen)
      else apply_and_broadcast q env

  signature_of : Plane → Envelope → Bytes
  signature_of p env = elim p.ed_priv [
    | none ↦ env.signature
    | some key ↦ w.ed_sign key (signing_bytes env)
  ]

  -- The envelope that `originate` builds and signs at time `now`.
  pub minted : Plane → ℤ → Text → Text → Bytes → Envelope
  unfolding signature_of
  minted p now id kind body =
      let env : Envelope = record {
        id = id;
        origin = p.node_name;
        kind = kind;
        ts = now;
        payload = body;
        signature = [];
      } in
      record env { signature = signature_of p env }

  unfoldable pub originate : Plane → ℤ → Text → Text → Option Bytes → Step
  unfolding minted apply_and_broadcast
  originate p now id kind none = (p, [], marshal_failed)
  originate p now id kind (some body) =
      let env = minted p now id kind body in
      apply_and_broadcast (record p { outbox = put p.outbox id env; seen = put p.seen id now }) env

  resend : List Envelope → List Event × Bool
  resend [] = ([], true)
  resend (e ∷ es) =
      let (later, ok) = resend es in
      if w.broadcast_ok e then (broadcast e ∷ later, ok) else (broadcast e ∷ [], false)

  -- `ResendOutbox`: the calls of `Broadcast`, and whether all went well.
  pub resend_outbox : Plane → List Event × Bool
  unfolding resend
  resend_outbox p = resend (values p.outbox)

  unfoldable pub announce_hello : Plane → ℤ → Hello → Step
  unfolding originate
  announce_hello p now h = originate p now (hello_id p) (codes "add_node") (w.marshal_hello h)

  pub announce_add_edge : Plane → ℤ → Text → ℤ → Step
  unfolding originate
  announce_add_edge p now to weight =
      originate p now (edge_id p to) (codes "add_edge")
        (w.marshal_add_edge (record { from = p.node_name; to = to; weight = weight }))

  pub announce_del_edge : Plane → ℤ → Text → Step
  unfolding originate
  announce_del_edge p now to =
      originate p now (edge_id p to) (codes "del_edge")
        (w.marshal_del_edge (record { from = p.node_name; to = to }))

  pub announce_add_subnet : Plane → ℤ → Text → Step
  unfolding originate
  announce_add_subnet p now subnet =
      originate p now (subnet_id p subnet) (codes "add_subnet")
        (w.marshal_add_subnet (record { owner = p.node_name; subnet = subnet }))

  pub announce_del_subnet : Plane → ℤ → Text → Step
  unfolding originate
  announce_del_subnet p now subnet =
      originate p now (subnet_id p subnet) (codes "del_subnet")
        (w.marshal_del_subnet (record { owner = p.node_name; subnet = subnet }))

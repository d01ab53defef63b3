-- ===== src/Daemon/Peers.antt =====
-- `buildState`, `allowedIPsFor`, `lookupPubKey` and `tryDialPeer`: what the daemon makes of the host files
-- of its peers.
pub mod Keyed
use gsnet.Common.{
  ℕ, ◌+◌, ◌*◌, List, [], ◌∷◌, ◌++◌, ◌&&◌, not, Bool, true, false, Option, none, some, Text, text_eq,
  codes, length, if◌then◌else◌,
}
use gsnet.Common.Int.{ℤ, pos}
use gsnet.Strings.Space.{trim_space}
use gsnet.Strings.Decimal.{atoi, itoa}
use gsnet.Config.{Entry, get_first}
use gsnet.Config.Directory.{Disk, Loading, loaded, failed, parse_file}
use gsnet.DataPlane.{Bytes, Prefix, AddrPort, Peer, State, Mode, switch, hub, router}
use gsnet.Subnet
use gsnet.Daemon.Paths.{Paths, host_file}
use gsnet.Daemon.Loaded.{Parsers, Settings, addr_from_host_entry, number, wrap}

-- What is parsed besides, and what the gossip plane and the graph know of a peer.
pub record World (N : Type 0) : Type 0 where
  -- `wgtypes.ParseKey`
  pub wg_public : Text → Option Bytes
  pub parse_addr_port : Text → Option AddrPort
  pub parse_addr : Text → Option Bytes
  -- `ParseEd25519PublicBase64`
  pub parse_public : Text → Option Bytes
  -- The fields `MAC` and `Prefix` of a subnet.
  pub mac_of : N → Option Bytes
  pub prefix_of : N → Prefix
  pub endpoint_of : Text → Text
  pub inner_addr_of : Text → Option Bytes
  pub underlay_addr_of : Text → Option Bytes
  pub node_subnets : Text → List Text

-- The first of two that is valid.
or_else : {A : Type 0} → Option A → Option A → Option A
or_else none b = b
or_else (some a) b = some a

int_or : ℤ → Option ℤ → ℤ
int_or default none = default
int_or default (some n) = n

unfoldable pub full_prefix : Option Bytes → List Prefix
full_prefix none = []
full_prefix (some a) = record { addr = a; bits = 8 * length a } ∷ []

-- The subnets of internal/subnet, with `subnet.Parse`.
abbrev pub ParsedSubnet : Type 0
ParsedSubnet = Subnet.Subnet Prefix

abbrev pub with_parse : Subnet.Nets Prefix → Parsers ParsedSubnet → Parsers ParsedSubnet
with_parse net ps = record ps { parse_subnet = Subnet.parse net }

abbrev pub with_fields : World ParsedSubnet → World ParsedSubnet
with_fields w = record w { mac_of = λ n. n.mac; prefix_of = λ n. n.prefix }

module _ {N : Type 0} (ps : Parsers N) (w : World N) where
  -- The loop of `allowedIPsFor` in router mode.
  unfoldable pub subnet_prefixes : List Text → List Prefix
  subnet_prefixes [] = []
  subnet_prefixes (s ∷ ss) =
      let rest = subnet_prefixes ss in
      elim (ps.parse_subnet s) [
        | none ↦ rest
        | some n ↦ elim (w.mac_of n) [ none ↦ w.prefix_of n ∷ rest | some mac ↦ rest ]
      ]

  -- `allowedIPsFor`
  unfoldable pub allowed_ips_for : Mode → Text → Option Bytes → List Prefix
  unfolding subnet_prefixes full_prefix
  allowed_ips_for router peer underlay = subnet_prefixes (w.node_subnets peer)
  allowed_ips_for switch peer underlay = full_prefix underlay
  allowed_ips_for hub peer underlay = full_prefix underlay

  -- The port of a host file, or the local one.
  unfoldable pub port_in : Settings N → List Entry → ℤ
  unfolding number int_or
  port_in l es = int_or l.wg_listen_port (number es (codes "Port"))

  unfoldable pub static_endpoint : Settings N → List Entry → Option Text → Option AddrPort
  unfolding port_in wrap
  static_endpoint l es none = none
  static_endpoint l es (some a) = elim (w.parse_addr a) [
    | none ↦ none
    | some b ↦ some (record { addr = b; port = wrap 16 (port_in l es) })
  ]

  learned_endpoint : Text → Option AddrPort
  learned_endpoint s = if text_eq s [] then none else w.parse_addr_port s

  -- The endpoint: the one that gossip has, or the address in the host file.
  unfoldable pub endpoint_for : Settings N → Text → List Entry → Option AddrPort
  unfolding static_endpoint learned_endpoint or_else get_first
  endpoint_for l peer es =
      or_else (learned_endpoint (w.endpoint_of peer))
        (static_endpoint l es (get_first es (codes "Address")))

  unfoldable pub peer_from : Settings N → Text → List Entry → Bytes → Peer
  unfolding endpoint_for allowed_ips_for or_else addr_from_host_entry
  peer_from l peer es key =
      let underlay =
        or_else (w.underlay_addr_of peer) (addr_from_host_entry ps es (codes "UnderlayAddress")) in
      record {
        name = peer;
        wg_public = key;
        endpoint = endpoint_for l peer es;
        inner_addr =
            or_else (w.inner_addr_of peer) (addr_from_host_entry ps es (codes "InnerAddress"));
        underlay_addr = underlay;
        allowed_ips = allowed_ips_for l.mode peer underlay;
      }

  -- The key in a host file.
  unfoldable pub keyed : Option Text → Option Bytes
  keyed none = none
  keyed (some s) = w.wg_public s

  unfoldable pub peer_in : Settings N → Text → Loading (List Entry) → Option Peer
  unfolding keyed peer_from get_first
  peer_in l peer (failed e) = none
  peer_in l peer (loaded es) = elim (keyed (get_first es (codes "WGPublicKey"))) [
    | none ↦ none
    | some key ↦ some (peer_from l peer es key)
  ]

  -- The loop of `buildState` over the nodes of the graph.
  unfoldable pub peers_of : Settings N → Disk → Paths → List Text → List Peer
  unfolding peer_in parse_file host_file
  peers_of l disk p [] = []
  peers_of l disk p (n ∷ ns) =
      let rest = peers_of l disk p ns in
      if text_eq n l.node_name then rest else elim (peer_in l n (parse_file disk (host_file p n))) [
        | none ↦ rest
        | some peer ↦ peer ∷ rest
      ]

  -- `buildState`
  unfoldable pub build_state : Settings N → Disk → Paths → List Text → State
  unfolding peers_of
  build_state l disk p nodes = record {
    mode = l.mode;
    wg_private = l.wg_priv;
    wg_interface = l.wg_interface;
    wg_listen_port = l.wg_listen_port;
    vxlan_interface = l.vxlan_iface;
    vxlan_id = l.vxlan_id;
    vxlan_port = l.vxlan_port;
    local_inner_addr = l.inner_addr;
    local_underlay_addr = l.underlay_addr;
    mtu = l.mtu;
    peers = peers_of l disk p nodes;
  }

  public_in : Loading (List Entry) → Option Bytes
  unfolding get_first trim_space
  public_in (failed e) = none
  public_in (loaded es) = elim (get_first es (codes "Ed25519PublicKey")) [
    | none ↦ none
    | some v ↦ w.parse_public (trim_space v)
  ]

  -- `lookupPubKey`, with the public key of the node itself.
  unfoldable pub lookup_pub_key : Settings N → Bytes → Disk → Paths → Text → Option Bytes
  unfolding public_in parse_file host_file
  lookup_pub_key l own disk p name =
      if text_eq name l.node_name then some own else public_in (parse_file disk (host_file p name))

  target_in : Settings N → Loading (List Entry) → Option Text
  unfolding port_in get_first itoa
  target_in l (failed e) = none
  target_in l (loaded es) = elim (get_first es (codes "Address")) [
    | none ↦ none
    | some a ↦ some (a ++ (b':' ∷ itoa (port_in l es)))
  ]

  -- What `tryDialPeer` dials, if the host file says it.
  unfoldable pub dial_target : Settings N → Disk → Paths → Text → Option Text
  unfolding target_in parse_file host_file
  dial_target l disk p name = target_in l (parse_file disk (host_file p name))

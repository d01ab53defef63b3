-- ===== src/DataPlane/Linux.antt =====
-- internal/dataplane/linux/linux.go: the reconciler. What it calls of netlink, wgctrl and SHA-256 is a
-- parameter over a type of kernel states; a call gives the new state, or `none` for an error.
pub mod Fdb
pub mod Wireguard
pub mod Links
mod Tests
use gsnet.Common.{ℕ, List, Option, Bool, Text}
use gsnet.Common.Int.{ℤ}
use gsnet.DataPlane.{Bytes, Prefix, AddrPort}

-- A row of the forwarding table: the strings of a MAC and of an IP address.
abbrev pub Row : Type 0
Row = Text × Text

pub record Link : Type 0 where
  pub index : ℕ
  pub link_mtu : ℤ
  pub hardware_addr : Bytes
  -- The source address, where the link is a VXLAN.
  pub src_addr : Option Bytes

-- What `LinkByName` answers.
pub data LinkLookup : Type 0 where
  not_found failed : LinkLookup
  link : Link → LinkLookup

pub record Vxlan : Type 0 where
  pub name : Text
  pub parent : ℕ
  pub vxlan_mtu : Option ℤ
  pub mac : Bytes
  pub id : ℕ
  pub port : ℕ
  pub learning : Bool
  pub src : Bytes

-- `wgtypes.PeerConfig` with its keep-alive of 25 seconds, or with `Remove`.
pub data PeerConfig : Type 0 where
  set_peer : Bytes → List Prefix → Option AddrPort → PeerConfig
  remove_peer : Bytes → PeerConfig

-- What the device tells of a peer.
pub record DevicePeer : Type 0 where
  pub public_key : Bytes
  pub receive_bytes : ℕ
  pub transmit_bytes : ℕ
  pub last_handshake : ℤ

pub record Kernel (K : Type 0) : Type 0 where
  pub link_by_name : K → Text → LinkLookup
  pub add_wireguard : K → Text → Option ℤ → Option K
  pub add_vxlan : K → Vxlan → Option K
  pub link_del : K → Link → Option K
  pub set_mtu : K → Link → ℤ → Option K
  pub set_mac : K → Link → Bytes → Option K
  pub addr_replace : K → Link → Prefix → Option K
  pub set_up : K → Link → Option K
  pub neigh_list : K → Link → Option (List Row)
  pub neigh_append : K → Link → Row → Option K
  pub neigh_del : K → Link → Row → Option K
  -- `Device`, and `ConfigureDevice` with key, port and peers.
  pub device_peers : K → Text → Option (List DevicePeer)
  pub configure_device : K → Text → Bytes → ℤ → List PeerConfig → Option K
  pub public_key : Bytes → Bytes
  pub sha256 : Bytes → Bytes
  -- `Key.String`
  pub key_text : Bytes → Text
  -- `HardwareAddr.String` and `Addr.String`
  pub mac_text : Bytes → Text
  pub ip_text : Bytes → Text

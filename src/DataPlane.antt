-- ===== src/DataPlane.antt =====
-- internal/dataplane/dataplane.go: the desired state of the data plane. Addresses and keys are lists of
-- bytes; `none` stands for the zero value of an address, an endpoint or a prefix.
pub mod Linux
use gsnet.Common.{ℕ, List, Option, Text}
use gsnet.Common.Int.{ℤ}

abbrev pub Bytes : Type 0
Bytes = List ℕ

pub record Prefix : Type 0 where
  pub addr : Bytes
  pub bits : ℕ

pub record AddrPort : Type 0 where
  pub addr : Bytes
  pub port : ℕ

pub record Peer : Type 0 where
  pub name : Text
  pub wg_public : Bytes
  pub endpoint : Option AddrPort
  pub inner_addr : Option Bytes
  pub underlay_addr : Option Bytes
  pub allowed_ips : List Prefix

pub data Mode : Type 0 where
  switch hub router : Mode

pub record State : Type 0 where
  pub mode : Mode
  pub wg_private : Bytes
  pub wg_interface : Text
  pub wg_listen_port : ℤ
  pub vxlan_interface : Text
  pub vxlan_id : ℕ
  pub vxlan_port : ℕ
  pub local_inner_addr : Option Prefix
  pub local_underlay_addr : Option Prefix
  pub mtu : ℤ
  pub peers : List Peer

-- ===== src/DataPlane/Linux/Wireguard.antt =====
-- `configureWGPeers` and `Stats`: the peers of the WireGuard device.
use gsnet.Common.{
  ℕ, ◌≡◌, refl, List, [], ◌∷◌, ◌++◌, ◌||◌, ◌&&◌, not, Bool, false, Option, none, some, Text,
  text_eq, text_eq_iff, if◌then◌else◌, arith, Bool-cases, inl, inr,
}
use gsnet.Common.Int.{ℤ}
use gsnet.Dict.{Dict, get, put}
use gsnet.DataPlane.{Bytes, Peer, State}
use gsnet.DataPlane.Linux.{PeerConfig, set_peer, remove_peer, DevicePeer, Kernel}

-- `_, keep := desired[key]`
unfoldable pub wanted : List Peer → Bytes → Bool
wanted [] key = false
wanted (p ∷ ps) key = text_eq p.wg_public key || wanted ps key

unfoldable pub set_configs : List Peer → List PeerConfig
set_configs [] = []
set_configs (p ∷ ps) = set_peer p.wg_public p.allowed_ips p.endpoint ∷ set_configs ps

-- The loop over the peers on the device.
unfoldable pub remove_configs : List Peer → List DevicePeer → List PeerConfig
unfolding wanted
remove_configs ps [] = []
remove_configs ps (d ∷ ds) =
    let rest = remove_configs ps ds in
    if wanted ps d.public_key then rest else remove_peer d.public_key ∷ rest

unfoldable pub device_removals : List Peer → Option (List DevicePeer) → List PeerConfig
unfolding remove_configs
device_removals ps none = []
device_removals ps (some ds) = remove_configs ps ds

unfoldable pub peer_configs : List Peer → Option (List DevicePeer) → List PeerConfig
unfolding set_configs device_removals
peer_configs ps device = set_configs ps ++ device_removals ps device

-- The counters of one peer; `rx_bytes` and `tx_bytes` are the `uint64` of the device's `int64`.
pub record TrafficStats : Type 0 where
  pub peer : Text
  pub rx_bytes : ℕ
  pub tx_bytes : ℕ
  pub last_handshake : ℤ

name_or : Text → Option Text → Text
name_or key none = key
name_or key (some name) = name

module _ {K : Type 0} (os : Kernel K) where
  -- The loop of `Stats` over the peers of that state.
  pub name_by_key : List Peer → Dict Text → Dict Text
  name_by_key [] names = names
  name_by_key (p ∷ ps) names = name_by_key ps (put names (os.key_text p.wg_public) p.name)

  stats_of : Dict Text → List DevicePeer → List TrafficStats
  unfolding name_or
  stats_of names [] = []
  stats_of names (d ∷ ds) =
      let key = os.key_text d.public_key in
      record {
        peer = name_or key (get names key);
        rx_bytes = d.receive_bytes;
        tx_bytes = d.transmit_bytes;
        last_handshake = d.last_handshake;
      }
      ∷ stats_of names ds

  -- `Stats`, on the state of the last run without an error.
  unfoldable pub stats : K → Option State → Option (List TrafficStats)
  unfolding name_by_key stats_of
  stats k none = some []
  stats k (some s) = elim (os.device_peers k s.wg_interface) [
    | none ↦ none
    | some ds ↦ some (stats_of (name_by_key s.peers []) ds)
  ]

  -- `configureWGPeers`
  unfoldable pub configure_wg_peers : K → State → Option K
  unfolding peer_configs
  configure_wg_peers k s =
      os.configure_device k s.wg_interface s.wg_private s.wg_listen_port
        (peer_configs s.peers (os.device_peers k s.wg_interface))

-- The configuration sets the peer with this key, and removes it.
pub sets : List PeerConfig → Bytes → Bool
sets [] key = false
sets (set_peer k ips e ∷ cs) key = text_eq k key || sets cs key
sets (remove_peer k ∷ cs) key = sets cs key

pub removes : List PeerConfig → Bytes → Bool
removes [] key = false
removes (set_peer k ips e ∷ cs) key = removes cs key
removes (remove_peer k ∷ cs) key = text_eq k key || removes cs key

pub on_device : List DevicePeer → Bytes → Bool
on_device [] key = false
on_device (d ∷ ds) key = text_eq d.public_key key || on_device ds key

sets-append :
    (cs ds : List PeerConfig) (key : Bytes) → sets (cs ++ ds) key ≡ (sets cs key || sets ds key)
unfolding sets
sets-append [] ds key = refl
sets-append (set_peer k ips e ∷ cs) ds key = ground (arith, sets-append cs ds key)
sets-append (remove_peer k ∷ cs) ds key = sets-append cs ds key

removes-append :
    (cs ds : List PeerConfig) (key : Bytes)
    → removes (cs ++ ds) key ≡ (removes cs key || removes ds key)
unfolding removes
removes-append [] ds key = refl
removes-append (set_peer k ips e ∷ cs) ds key = removes-append cs ds key
removes-append (remove_peer k ∷ cs) ds key = ground (arith, removes-append cs ds key)

set_configs_lem :
    (ps : List Peer) (key : Bytes)
    → (sets (set_configs ps) key ≡ wanted ps key) × (removes (set_configs ps) key ≡ false)
unfolding set_configs sets removes wanted
set_configs_lem [] key = (refl, refl)
set_configs_lem (p ∷ ps) key = ground (arith, set_configs_lem ps key)

remove_configs_lem :
    (ps : List Peer) (ds : List DevicePeer) (key : Bytes)
    → (sets (remove_configs ps ds) key ≡ false)
      × (removes (remove_configs ps ds) key ≡ (on_device ds key && not (wanted ps key)))
unfolding remove_configs sets removes on_device
remove_configs_lem ps [] key = (refl, refl)
remove_configs_lem ps (d ∷ ds) key = elim (Bool-cases (wanted ps d.public_key)) [
  | inl e ↦
      rw (e, remove_configs)
        (ground (arith, remove_configs_lem ps ds key, text_eq_iff d.public_key key))
  | inr e ↦
      rw (e, remove_configs)
        (ground (arith, remove_configs_lem ps ds key, text_eq_iff d.public_key key))
]

-- The configuration that a run sends to a device sets exactly the wanted peers and removes exactly
-- those that are on the device and not wanted. So no peer that stays is removed, and its session lasts.
pub peer_configs_split :
    (ps : List Peer) (ds : List DevicePeer) (key : Bytes)
    → let cs = peer_configs ps (some ds) in
      (sets cs key ≡ wanted ps key) × (removes cs key ≡ (on_device ds key && not (wanted ps key)))
unfolding peer_configs device_removals
peer_configs_split ps ds key = ground (
  arith,
  sets-append (set_configs ps) (remove_configs ps ds) key,
  removes-append (set_configs ps) (remove_configs ps ds) key,
  set_configs_lem ps key,
  remove_configs_lem ps ds key,
)

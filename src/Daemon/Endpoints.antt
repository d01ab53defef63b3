-- ===== src/Daemon/Endpoints.antt =====
-- internal/daemon/discovery.go: the discovered endpoint. The calls of STUN and of the gateway are
-- parameters over a type of states of the network; `none` stands for an error.
pub mod Announced
use gsnet.Common.{
  ℕ, ◌≡◌, List, [], ◌∷◌, ◌&&◌, ◌||◌, not, Bool, true, false, Option, none, some, Text, text_eq,
  codes, ◌==◌, is_some, if◌then◌else◌,
}
use gsnet.Common.Int.{ℤ}
use gsnet.DataPlane.{Bytes, AddrPort}
use gsnet.Daemon.Loaded.{wrap}

-- G is the type of gateways.
pub record Network (W G : Type 0) : Type 0 where
  pub discover : W → W × Option G
  pub add_port_mapping : W → G → ℕ → W × Bool
  pub external_ip : W → G → W × Option Bytes
  -- `QueryOnEphemeralPort`
  pub stun_query : W → Text → W × Option Bytes

abbrev same_endpoint : AddrPort → AddrPort → Bool
same_endpoint a b = text_eq a.addr b.addr && a.port == b.port

-- `e.ap == ap`
unfoldable pub same : Option AddrPort → Option AddrPort → Bool
same none none = true
same none (some b) = false
same (some a) none = false
same (some a) (some b) = same_endpoint a b

-- `Set`: the endpoint after it, and whether it is a new one.
unfoldable pub set : Option AddrPort → Option AddrPort → Option AddrPort × Bool
unfolding same
set old new = if same old new then (old, false) else (new, true)

-- What one turn of the loop in `runDiscovery` does with the endpoint: the store, and whether the node
-- announces itself again.
unfoldable pub settle : Option AddrPort → Option AddrPort → Option AddrPort × Bool
unfolding set
settle old none = (old, false)
settle old (some e) = set old (some e)

module _ {W G : Type 0} (net : Network W G) where
  endpoint_from : ℕ → Option Bytes → Option AddrPort
  endpoint_from port none = none
  endpoint_from port (some a) = some (record { addr = a; port = port })

  -- The gateway is there: the mapping and the external address.
  unfoldable pub with_mapping : ℕ → G → W × Bool → (W × Option G) × Option AddrPort
  unfolding endpoint_from
  with_mapping port g (w, false) = ((w, none), none)
  with_mapping port g (w, true) =
      let (v, ip) = net.external_ip w g in ((v, some g), endpoint_from port ip)

  with_gateway : ℕ → W × Option G → (W × Option G) × Option AddrPort
  unfolding with_mapping
  with_gateway port (w, none) = ((w, none), none)
  with_gateway port (w, some g) = with_mapping port g (net.add_port_mapping w g port)

  -- `refreshUPnP`, with the gateway that is known.
  unfoldable pub refresh_upnp : W → Option G → ℕ → (W × Option G) × Option AddrPort
  unfolding with_gateway
  refresh_upnp w none port = with_gateway port (net.discover w)
  refresh_upnp w (some g) port = with_gateway port (w, some g)

  stun_next : ℕ → W → Option Bytes → W × Option AddrPort → W × Option AddrPort
  stun_next port v none rest = rest
  stun_next port v (some a) rest = (v, some (record { addr = a; port = port }))

  -- The loop over the STUN servers.
  unfoldable pub stun_sweep : W → List Text → ℕ → W × Option AddrPort
  unfolding stun_next
  stun_sweep w [] port = (w, none)
  stun_sweep w (srv ∷ srvs) port =
      let (v, ip) = net.stun_query w srv in stun_next port v ip (stun_sweep v srvs port)

  abbrev pub wants_upnp : Text → Bool
  wants_upnp m = text_eq m (codes "yes") || text_eq m (codes "udponly")

  or_stun : List Text → ℕ → (W × Option G) × Option AddrPort → (W × Option G) × Option AddrPort
  unfolding stun_sweep
  or_stun srvs port (s, some e) = (s, some e)
  or_stun srvs port ((w, g), none) = let (v, e) = stun_sweep w srvs port in ((v, g), e)

  -- `discoverOnce`
  unfoldable pub discover_once :
      W → Option G → List Text → Text → ℤ → (W × Option G) × Option AddrPort
  unfolding or_stun refresh_upnp wrap
  discover_once w g srvs mode listen_port =
      let port = wrap 16 listen_port in
      or_stun srvs port (if wants_upnp mode then refresh_upnp w g port else ((w, g), none))

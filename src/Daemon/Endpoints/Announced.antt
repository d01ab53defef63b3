-- ===== src/Daemon/Endpoints/Announced.antt =====
-- Which endpoints are found, and when the node announces itself again.
use gsnet.Common.{
  ℕ, ◌≡◌, ◌↔◌, refl, List, [], ◌∷◌, Bool, true, false, Option, none, some, Text, text_eq_iff, arith,
  Bool-cases, inl, inr,
}
use gsnet.Common.Int.{ℤ}
use gsnet.DataPlane.{Bytes, AddrPort}
use gsnet.Daemon.Loaded.{wrap}
use gsnet.Daemon.Endpoints.{
  Network, same, set, refresh_upnp, stun_next, stun_sweep, with_mapping, discover_once, settle,
  endpoint_from, or_stun, with_gateway, wants_upnp,
}

-- The endpoint, if there is one, has this port.
abbrev pub HasPort : ℕ → Option AddrPort → Type 0
HasPort port none = Unit
HasPort port (some e) = e.port ≡ port

module _ {W G : Type 0} (net : Network W G) where
  endpoint_from-HasPort : (port : ℕ) (ip : Option Bytes) → HasPort port (endpoint_from net port ip)
  unfolding endpoint_from
  endpoint_from-HasPort port none = tt
  endpoint_from-HasPort port (some a) = refl

  with_mapping-HasPort :
      (port : ℕ) (g : G) (r : W × Bool) → HasPort port (with_mapping net port g r).1
  unfolding with_mapping
  with_mapping-HasPort port g (w, false) = tt
  with_mapping-HasPort port g (w, true) = endpoint_from-HasPort port (net.external_ip w g).1

  with_gateway-HasPort : (port : ℕ) (r : W × Option G) → HasPort port (with_gateway net port r).1
  unfolding with_gateway
  with_gateway-HasPort port (w, none) = tt
  with_gateway-HasPort port (w, some g) =
      with_mapping-HasPort port g (net.add_port_mapping w g port)

  refresh_upnp-HasPort :
      (w : W) (g : Option G) (port : ℕ) → HasPort port (refresh_upnp net w g port).1
  unfolding refresh_upnp
  refresh_upnp-HasPort w none port = with_gateway-HasPort port (net.discover w)
  refresh_upnp-HasPort w (some g) port = with_gateway-HasPort port (w, some g)

  stun_next-HasPort :
      (port : ℕ) (v : W) (ip : Option Bytes) (rest : W × Option AddrPort)
      → HasPort port rest.1
      → HasPort port (stun_next net port v ip rest).1
  unfolding stun_next
  stun_next-HasPort port v none rest h = h
  stun_next-HasPort port v (some a) rest h = refl

  stun_sweep-HasPort :
      (w : W) (srvs : List Text) (port : ℕ) → HasPort port (stun_sweep net w srvs port).1
  unfolding stun_sweep
  stun_sweep-HasPort w [] port = tt
  stun_sweep-HasPort w (srv ∷ srvs) port =
      let (v, ip) = net.stun_query w srv in
      stun_next-HasPort port v ip (stun_sweep net v srvs port) (stun_sweep-HasPort v srvs port)

  or_stun-HasPort :
      (srvs : List Text) (port : ℕ) (r : (W × Option G) × Option AddrPort)
      → HasPort port r.1
      → HasPort port (or_stun net srvs port r).1
  unfolding or_stun
  or_stun-HasPort srvs port (s, some e) h = h
  or_stun-HasPort srvs port ((w, g), none) h = stun_sweep-HasPort w srvs port

  -- Whatever way `discoverOnce` finds an endpoint, its port is the port on which WireGuard listens, as 16
  -- bits: never one that STUN has seen.
  pub discover_once-HasPort :
      (w : W) (g : Option G) (srvs : List Text) (mode : Text) (listen_port : ℤ)
      → HasPort (wrap 16 listen_port) (discover_once net w g srvs mode listen_port).1
  unfolding discover_once
  discover_once-HasPort w g srvs mode listen_port = elim (Bool-cases (wants_upnp net mode)) [
    | inl e ↦ rw e (
        or_stun-HasPort srvs (wrap 16 listen_port) _
          (refresh_upnp-HasPort w g (wrap 16 listen_port)))
    | inr e ↦ rw e (or_stun-HasPort srvs (wrap 16 listen_port) ((w, g), none) tt)
  ]

same_iff : (a b : AddrPort) → (same (some a) (some b) ≡ true) ↔ (a ≡ b)
unfolding same
same_iff a b = ground (arith, text_eq_iff a.addr b.addr)

-- A turn of the loop that finds an endpoint leaves it in the store, and it announces the node again
-- exactly when the store held another one before.
pub settle_lem :
    (old : Option AddrPort) (e : AddrPort)
    → let (now, again) = settle old (some e) in (now ≡ some e) × ((again ≡ false) ↔ (old ≡ some e))
unfolding settle set same
settle_lem none e = ground arith
settle_lem (some o) e = ground (arith, same_iff o e)

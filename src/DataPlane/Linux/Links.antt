-- ===== src/DataPlane/Linux/Links.antt =====
-- `Reconcile`, `ensureWGInterface` and `ensureVXLAN`: the order of the calls that change the links.
pub mod Outcome
use gsnet.Common.{
  is_some, ℕ, ◌≡◌, ◌⊎◌, refl, List, [], ◌∷◌, ◌++◌, ◌&&◌, not, Bool, true, false, Option, none, some,
  Text, text_eq, if◌then◌else◌, ltb, ◌+◌, ◌-◌, arith, Bool-cases, Option-cases, inl, inr,
}
use gsnet.Common.Int.{ℤ, pos, negsuc, int_eq, is_nonpos}
use gsnet.DataPlane.{Bytes, Prefix, State, Mode, switch, hub, router}
use gsnet.DataPlane.Linux.{Link, LinkLookup, not_found, failed, link, Vxlan, Kernel}
use gsnet.DataPlane.Linux.Fdb.{reconcile_fdb, vxlan_mac}
use gsnet.DataPlane.Linux.Wireguard.{configure_wg_peers}

-- A call: the state after it and whether it succeeded. A call that fails leaves the state.
unfoldable pub call : {K : Type 0} → K → Option K → K × Bool
call k none = (k, false)
call k (some j) = (j, true)

-- `if err := ...; err != nil { return err }`, then the rest.
unfoldable pub after : {K : Type 0} → K × Bool → (K → K × Bool) → K × Bool
after (k, true) f = f k
after (k, false) f = (k, false)

-- The call is made only under this condition.
unfoldable pub only_if : {K : Type 0} → Bool → K → Option K → K × Bool
unfolding call
only_if true k o = call k o
only_if false k o = (k, true)

-- `Prefix.Addr().AsSlice()`, with no bytes for the zero prefix.
unfoldable pub addr_bytes : Option Prefix → Bytes
addr_bytes none = []
addr_bytes (some p) = p.addr

abbrev mapped_prefix : Bytes
mapped_prefix = 0 ∷ 0 ∷ 0 ∷ 0 ∷ 0 ∷ 0 ∷ 0 ∷ 0 ∷ 0 ∷ 0 ∷ 0xff ∷ 0xff ∷ []

-- `IP.To16` on 4 bytes: net.IP.Equal takes an IPv4 address and its IPv6 form for the same.
unfoldable pub to_16 : Bytes → Bytes
to_16 (a ∷ b ∷ c ∷ d ∷ []) = mapped_prefix ++ (a ∷ b ∷ c ∷ d ∷ [])
to_16 bs = bs

-- `s.MTU - 50`
unfoldable pub minus_50 : ℤ → ℤ
minus_50 (negsuc n) = negsuc (n + 50)
minus_50 (pos n) = if ltb n 50 then negsuc (49 - n) else pos (n - 50)

-- `if s.MTU > 0 { la.MTU = ... }`
unfoldable pub mtu_if_set : ℤ → ℤ → Option ℤ
mtu_if_set m v = if is_nonpos m then none else some v

-- `s.Mode != dataplane.ModeHub`
unfoldable pub learns : Mode → Bool
learns hub = false
learns switch = true
learns router = true

unfoldable pub is_router : Mode → Bool
is_router router = true
is_router hub = false
is_router switch = false

-- The fields that switch and hub mode need.
unfoldable pub has_overlay : State → Bool
has_overlay s =
    not (text_eq s.vxlan_interface [])
    && is_some s.local_inner_addr
    && is_some s.local_underlay_addr

unfoldable pub record_last :
    {K : Type 0} → State → Option State → K × Bool → (K × Option State) × Bool
record_last s last (k, true) = ((k, some s), true)
record_last s last (k, false) = ((k, last), false)

module _ {K : Type 0} (os : Kernel K) where
  unfoldable pub address : K → Link → Option Prefix → K × Bool
  unfolding call
  address k l none = (k, true)
  address k l (some p) = call k (os.addr_replace k l p)

  -- From `LinkSetMTU` to the end of `ensureWGInterface`.
  unfoldable pub wg_link : K → State → Link → K × Bool
  unfolding call after only_if address
  wg_link k s l =
      after
        (only_if (not (is_nonpos s.mtu) && not (int_eq l.link_mtu s.mtu)) k (os.set_mtu k l s.mtu))
        (λ k2. after (address k2 l s.local_underlay_addr) (λ k3. call k3 (os.set_up k3 l)))

  unfoldable pub wg_found : K → State → LinkLookup → K × Bool
  unfolding wg_link
  wg_found k s (link l) = wg_link k s l
  wg_found k s not_found = (k, false)
  wg_found k s failed = (k, false)

  -- `LinkAdd`, and the link it made.
  unfoldable pub wg_lookup : K → State → LinkLookup → K × Bool
  unfolding wg_link wg_found after call mtu_if_set
  wg_lookup k s (link l) = wg_link k s l
  wg_lookup k s failed = (k, false)
  wg_lookup k s not_found =
      after (call k (os.add_wireguard k s.wg_interface (mtu_if_set s.mtu s.mtu)))
        (λ k2. wg_found k2 s (os.link_by_name k2 s.wg_interface))

  -- `ensureWGInterface`
  unfoldable pub ensure_wg_interface : K → State → K × Bool
  unfolding wg_lookup
  ensure_wg_interface k s = wg_lookup k s (os.link_by_name k s.wg_interface)

  -- The MAC pinned to the VXLAN device.
  unfoldable pub pinned_mac : State → Bytes
  pinned_mac s = vxlan_mac os (os.public_key s.wg_private)

  unfoldable pub new_vxlan : State → Link → Vxlan
  unfolding mtu_if_set minus_50 learns addr_bytes pinned_mac
  new_vxlan s wg = record {
    name = s.vxlan_interface;
    parent = wg.index;
    vxlan_mtu = mtu_if_set s.mtu (minus_50 s.mtu);
    mac = pinned_mac s;
    id = s.vxlan_id;
    port = s.vxlan_port;
    learning = learns s.mode;
    src = addr_bytes s.local_underlay_addr;
  }

  -- From the pin of the MAC to the end of `ensureVXLAN`.
  unfoldable pub vxlan_link : K → State → LinkLookup → K × Bool
  unfolding call after only_if address pinned_mac minus_50
  vxlan_link k s not_found = (k, false)
  vxlan_link k s failed = (k, false)
  vxlan_link k s (link l) =
      after
        (only_if (not (text_eq (os.mac_text l.hardware_addr) (os.mac_text (pinned_mac s)))) k
          (os.set_mac k l (pinned_mac s)))
        (λ k2.
          after
            (only_if (not (is_nonpos s.mtu) && not (int_eq l.link_mtu (minus_50 s.mtu))) k2
              (os.set_mtu k2 l (minus_50 s.mtu)))
            (λ k3. after (address k3 l s.local_inner_addr) (λ k4. call k4 (os.set_up k4 l))))

  -- `if link == nil`
  unfoldable pub create_vxlan : K → State → Link → K × Bool
  unfolding call after new_vxlan vxlan_link
  create_vxlan k s wg =
      after (call k (os.add_vxlan k (new_vxlan s wg)))
        (λ k2. vxlan_link k2 s (os.link_by_name k2 s.vxlan_interface))

  -- The link is a VXLAN whose source address is not the wanted one.
  unfoldable pub drifted : State → Link → Bool
  unfolding to_16 addr_bytes
  drifted s l = elim l.src_addr [
    | none ↦ false
    | some a ↦ not (text_eq (to_16 a) (to_16 (addr_bytes s.local_underlay_addr)))
  ]

  unfoldable pub vxlan_lookup : K → State → Link → LinkLookup → K × Bool
  unfolding create_vxlan vxlan_link drifted after call
  vxlan_lookup k s wg failed = (k, false)
  vxlan_lookup k s wg not_found = create_vxlan k s wg
  vxlan_lookup k s wg (link l) =
      if drifted s l
      then after (call k (os.link_del k l)) (λ k2. create_vxlan k2 s wg)
      else vxlan_link k s (link l)

  unfoldable pub on_wg : K → State → LinkLookup → K × Bool
  unfolding vxlan_lookup
  on_wg k s (link wg) = vxlan_lookup k s wg (os.link_by_name k s.vxlan_interface)
  on_wg k s not_found = (k, false)
  on_wg k s failed = (k, false)

  -- `ensureVXLAN`
  unfoldable pub ensure_vxlan : K → State → K × Bool
  unfolding on_wg
  ensure_vxlan k s = on_wg k s (os.link_by_name k s.wg_interface)

  -- `if s.Mode != dataplane.ModeRouter`
  unfoldable pub overlay : K → State → K × Bool
  unfolding is_router has_overlay after ensure_vxlan
  overlay k s =
      if is_router s.mode
      then (k, true)
      else if has_overlay s
      then after (ensure_vxlan k s) (λ k2. reconcile_fdb os k2 s.vxlan_interface s.peers)
      else (k, false)

  -- The calls of `Reconcile`.
  unfoldable pub run : K → State → K × Bool
  unfolding ensure_wg_interface overlay after call
  run k s =
      if text_eq s.wg_interface []
      then (k, false)
      else after (ensure_wg_interface k s)
          (λ k2. after (call k2 (configure_wg_peers os k2 s)) (λ k3. overlay k3 s))

  -- `Reconcile`, with the state of the last run without an error.
  unfoldable pub reconcile : K → Option State → State → (K × Option State) × Bool
  unfolding run record_last
  reconcile k last s = record_last s last (run k s)

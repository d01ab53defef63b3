-- ===== src/DataPlane/Linux/Fdb.antt =====
-- `reconcileFDB`: the rows of the VXLAN forwarding table.
pub mod Table
pub mod Rows
pub mod Settled
pub mod Mac
use Prim.Native.Nat.{bit_and, bit_or}
use gsnet.Common.{
  ℕ, List, [], ◌∷◌, ◌||◌, ◌&&◌, Bool, true, false, Option, none, some, Text, text_eq, take,
  if◌then◌else◌,
}
use gsnet.Dict.{contains}
use gsnet.DataPlane.{Bytes, Peer}
use gsnet.DataPlane.Linux.{Row, Link, LinkLookup, not_found, failed, link, Kernel}

-- `==` on the key type `fdbKey`.
abbrev pub row_eq : Row → Row → Bool
row_eq (m, i) (n, j) = text_eq m n && text_eq i j

unfoldable pub holds : List Row → Row → Bool
holds [] r = false
holds (q ∷ rows) r = row_eq q r || holds rows r

-- `m[r] = struct{}{}`
unfoldable pub add_row : List Row → Row → List Row
unfolding holds
add_row rows r = if holds rows r then rows else r ∷ rows

abbrev pub broadcast_mac : Bytes
broadcast_mac = 0xff ∷ 0xff ∷ 0xff ∷ 0xff ∷ 0xff ∷ 0xff ∷ []

-- `mac[0] = (mac[0] | 0x02) & 0xfe`
unfoldable pub local_unicast : Bytes → Bytes
local_unicast [] = []
local_unicast (b ∷ bs) = bit_and (bit_or b 0x02) 0xfe ∷ bs

module _ {K : Type 0} (os : Kernel K) where
  -- `vxlanMACFromKey`
  unfoldable pub vxlan_mac : Bytes → Bytes
  vxlan_mac key = local_unicast (take 6 (os.sha256 key))

  abbrev pub broadcast_text : Text
  broadcast_text = os.mac_text broadcast_mac

  abbrev pub peer_text : Peer → Text
  peer_text p = os.mac_text (vxlan_mac p.wg_public)

  -- The loop over the peers that fills `desired`.
  unfoldable pub desired : List Peer → List Row → List Row
  unfolding add_row
  desired [] rows = rows
  desired (p ∷ ps) rows = desired ps (elim p.underlay_addr [
    | none ↦ rows
    | some a ↦ add_row (add_row rows (broadcast_text, os.ip_text a)) (peer_text p, os.ip_text a)
  ])

  -- The same loop on `managedMACs`.
  unfoldable pub managed : List Peer → Text → Bool
  managed [] mac = text_eq broadcast_text mac
  managed (p ∷ ps) mac = elim p.underlay_addr [
    | none ↦ managed ps mac
    | some a ↦ text_eq (peer_text p) mac || managed ps mac
  ]

  -- The loop over the existing rows that fills `have`.
  unfoldable pub managed_rows : List Peer → List Row → List Row → List Row
  unfolding managed add_row
  managed_rows ps [] have = have
  managed_rows ps (r ∷ rs) have =
      managed_rows ps rs (if managed ps r.0 then add_row have r else have)

  -- The loop of `NeighAppend` over `desired`: the state, and whether no call failed.
  unfoldable pub append_rows : K → Link → List Row → List Row → K × Bool
  unfolding holds
  append_rows k l have [] = (k, true)
  append_rows k l have (r ∷ rs) =
      let skip = append_rows k l have rs in
      elim (holds have r) [
        | true ↦ skip
        | false ↦ elim (os.neigh_append k l r) [
          | none ↦ (k, false)
          | some j ↦ append_rows j l have rs
        ]
      ]

  -- The loop of `NeighDel` over `have`.
  unfoldable pub del_rows : K → Link → List Row → List Row → K × Bool
  unfolding holds
  del_rows k l want [] = (k, true)
  del_rows k l want (r ∷ rs) =
      let skip = del_rows k l want rs in
      elim (holds want r) [
        | true ↦ skip
        | false ↦ elim (os.neigh_del k l r) [ none ↦ (k, false) | some j ↦ del_rows j l want rs ]
      ]

  unfoldable pub then_del : K × Bool → Link → List Row → List Row → K × Bool
  then_del (k, true) l want have = del_rows k l want have
  then_del (k, false) l want have = (k, false)

  unfoldable pub change_rows : K → Link → List Peer → Option (List Row) → K × Bool
  unfolding append_rows del_rows then_del
  change_rows k l ps none = (k, false)
  change_rows k l ps (some existing) =
      let want = desired ps [] in
      let have = managed_rows ps existing [] in then_del (append_rows k l have want) l want have

  unfoldable pub on_link : K → LinkLookup → List Peer → K × Bool
  unfolding change_rows
  on_link k (link l) ps = change_rows k l ps (os.neigh_list k l)
  on_link k not_found ps = (k, false)
  on_link k failed ps = (k, false)

  -- `reconcileFDB`
  unfoldable pub reconcile_fdb : K → Text → List Peer → K × Bool
  unfolding on_link
  reconcile_fdb k vxlan_interface ps = on_link k (os.link_by_name k vxlan_interface) ps

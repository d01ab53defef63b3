-- ===== src/DataPlane/Linux/Tests.antt =====
-- A kernel that is a table of rows, and the theorems on it.
use gsnet.Common.{
  ◌≡◌, ◌⊎◌, refl, List, [], ◌∷◌, ◌&&◌, ◌||◌, not, true, false, Option, none, some, text_eq,
  text_eq_iff, if◌then◌else◌, arith, Bool-cases, inl, inr,
}
use gsnet.Common.Int.{pos}
use gsnet.DataPlane.{Peer, State, hub}
use gsnet.DataPlane.Linux.{Row, Link, link, DevicePeer, Kernel}
use gsnet.DataPlane.Linux.Fdb.{
  local_unicast, holds, row_eq, reconcile_fdb, managed, on_link, change_rows, append_rows, del_rows,
  then_del, desired, managed_rows, add_row, vxlan_mac, broadcast_mac,
}
use gsnet.DataPlane.Linux.Fdb.Table.{IsTable, Distinct, has_mac}
use gsnet.DataPlane.Linux.Fdb.Rows.{wants}
use gsnet.DataPlane.Linux.Wireguard.{configure_wg_peers, device_removals, peer_configs}
use gsnet.DataPlane.Linux.Links.{
  call, after, only_if, addr_bytes, to_16, minus_50, mtu_if_set, learns, is_router, has_overlay,
  address, wg_link, wg_found, wg_lookup, ensure_wg_interface, pinned_mac, new_vxlan, vxlan_link,
  create_vxlan, drifted, vxlan_lookup, on_wg, ensure_vxlan, overlay, run, reconcile,
}
use gsnet.DataPlane.Linux.Links.Outcome.{complete, Settled, reconcile_last, run_settles}

without : List Row → Row → List Row
without [] r = []
without (q ∷ rows) r = let rest = without rows r in if row_eq r q then rest else q ∷ rest

abbrev device : Link
device = record { index = 1; link_mtu = pos 0; hardware_addr = []; src_addr = none }

-- The kernel adds a row for the broadcast MAC, and for a MAC that has none.
with_row : List Row → Row → List Row
with_row rows r = if text_eq broadcast_mac r.0 || not (has_mac rows r.0) then r ∷ rows else rows

unfoldable table : Kernel (List Row)
unfolding without with_row
table = record {
  link_by_name = λ k n. link device;
  add_wireguard = λ k n m. some k;
  add_vxlan = λ k v. some k;
  link_del = λ k l. some k;
  set_mtu = λ k l m. some k;
  set_mac = λ k l m. some k;
  addr_replace = λ k l p. some k;
  set_up = λ k l. some k;
  neigh_list = λ k l. some k;
  neigh_append = λ k l r. some (with_row k r);
  neigh_del = λ k l r. some (without k r);
  device_peers = λ k n. some [];
  configure_device = λ k n key port cs. some k;
  public_key = λ key. key;
  sha256 = λ key. key;
  key_text = λ key. key;
  mac_text = λ m. m;
  ip_text = λ a. a;
}

row_eq_iff : (a b : Row) → (row_eq a b ≡ true) → a ≡ b
row_eq_iff (m, i) (n, j) h = ground (arith, text_eq_iff m n, text_eq_iff i j)

holds-without :
    (rows : List Row) (r q : Row) → holds (without rows r) q ≡ (holds rows q && not (row_eq r q))
unfolding holds without
holds-without [] r q = refl
holds-without (p ∷ rows) r q = elim (Bool-cases (row_eq r p)) [
  | inl e ↦ rw (e, without) (ground (arith, holds-without rows r q, row_eq_iff r p, row_eq_iff r q))
  | inr e ↦ rw (e, without) (ground (arith, holds-without rows r q, row_eq_iff p q))
]

moved :
    (f : List Row → List Row) (k rows j : List Row)
    → ◌≡◌ {A = Option (List Row)} (some k) (some rows)
    → ◌≡◌ {A = Option (List Row)} (some (f k)) (some j)
    → ◌≡◌ {A = Option (List Row)} (some j) (some (f rows))
moved f k rows j e h = cc

holds-with_row :
    (rows : List Row) (r q : Row)
    → holds (with_row rows r) q
      ≡ (row_eq r q && (text_eq broadcast_mac r.0 || not (has_mac rows r.0)) || holds rows q)
unfolding holds with_row
holds-with_row rows r q = elim (Bool-cases (text_eq broadcast_mac r.0 || not (has_mac rows r.0))) [
  | inl taken ↦ rw taken (ground arith)
  | inr left ↦ rw left (ground arith)
]

table-IsTable : IsTable table
unfolding table holds
table-IsTable = record {
  appends = λ k l r rows j listed done. (
    with_row rows r,
    moved (λ t. with_row t r) k rows j listed done,
    λ q. holds-with_row rows r q,
  );
  deletes = λ k l r rows j listed done.
      (without rows r, moved (λ t. without t r) k rows j listed done, λ q. holds-without rows r q);
  append_names = λ k l r j n done. refl;
  del_names = λ k l r j n done. refl;
}

abbrev beta : Peer
beta = record {
  name = 98 ∷ [];
  wg_public = 1 ∷ 2 ∷ 3 ∷ [];
  endpoint = none;
  inner_addr = none;
  underlay_addr = some (10 ∷ 0 ∷ 0 ∷ 2 ∷ []);
  allowed_ips = [];
}

-- The row of a peer that has gone, and one that an operator has put in.
abbrev old_rows : List Row
old_rows =
    (0xff ∷ 0xff ∷ 0xff ∷ 0xff ∷ 0xff ∷ 0xff ∷ [], 10 ∷ 0 ∷ 0 ∷ 9 ∷ []) ∷ (7 ∷ [], 8 ∷ []) ∷ []

unfoldable new_rows : List Row
unfolding reconcile_fdb on_link change_rows append_rows del_rows then_del desired managed
    managed_rows add_row holds vxlan_mac with_row has_mac table
new_rows = (reconcile_fdb table old_rows [] (beta ∷ [])).0

ran : reconcile_fdb table old_rows [] (beta ∷ []) ≡ (new_rows, true)
unfolding new_rows reconcile_fdb on_link change_rows append_rows del_rows then_del desired managed
    managed_rows add_row holds vxlan_mac with_row has_mac table text_eq local_unicast
ran = refl

abbrev gone : DevicePeer
gone = record { public_key = 9 ∷ []; receive_bytes = 0; transmit_bytes = 0; last_handshake = pos 0 }

abbrev overlaid : State
overlaid = record {
  mode = hub;
  wg_private = 5 ∷ [];
  wg_interface = 119 ∷ [];
  wg_listen_port = pos 51820;
  vxlan_interface = 118 ∷ [];
  vxlan_id = 42;
  vxlan_port = 4789;
  local_inner_addr = some (record { addr = 10 ∷ 1 ∷ 0 ∷ 1 ∷ []; bits = 24 });
  local_underlay_addr = some (record { addr = 10 ∷ 0 ∷ 0 ∷ 1 ∷ []; bits = 24 });
  mtu = pos 1420;
  peers = beta ∷ [];
}

reconcile_last_example :
    let (r, good) = reconcile table old_rows none overlaid in
    ((good ≡ true) × (r.1 ≡ some overlaid) × (complete overlaid ≡ true))
    ⊎ ((good ≡ false) × (r.1 ≡ none))
reconcile_last_example = reconcile_last table old_rows none overlaid

overlaid-run : run table old_rows overlaid ≡ (new_rows, true)
unfolding configure_wg_peers peer_configs device_removals call after only_if addr_bytes to_16
    minus_50 mtu_if_set learns is_router has_overlay address wg_link wg_found wg_lookup
    ensure_wg_interface pinned_mac new_vxlan vxlan_link create_vxlan drifted vxlan_lookup on_wg
    ensure_vxlan overlay run new_rows reconcile_fdb on_link change_rows append_rows del_rows
    then_del desired managed managed_rows add_row holds vxlan_mac with_row has_mac table text_eq
    local_unicast
overlaid-run = refl

one_peer : Distinct table (wants table (beta ∷ []))
unfolding wants table vxlan_mac local_unicast
one_peer (m, i) (n, j) hq hr e b = ground (
  arith,
  text_eq_iff (vxlan_mac table beta.wg_public) m,
  text_eq_iff (10 ∷ 0 ∷ 0 ∷ 2 ∷ []) i,
  text_eq_iff (vxlan_mac table beta.wg_public) n,
  text_eq_iff (10 ∷ 0 ∷ 0 ∷ 2 ∷ []) j,
)

run_settles_example : Settled table old_rows new_rows overlaid
unfolding is_router
run_settles_example =
    run_settles table table-IsTable old_rows new_rows overlaid refl one_peer overlaid-run

-- ===== src/DataPlane/Linux/Links/Outcome.antt =====
-- What a run of `Reconcile` leaves, with an error and without.
use gsnet.Common.{
  ◌≡◌, ◌⊎◌, refl, ap, List, [], ◌||◌, ◌&&◌, not, Bool, true, false, Option, some, text_eq,
  if◌then◌else◌, arith, Bool-cases, inl, inr,
}
use gsnet.DataPlane.{State}
use gsnet.DataPlane.Linux.{Row, Link, link, Kernel}
use gsnet.DataPlane.Linux.Fdb.{holds, broadcast_text, reconcile_fdb, managed}
use gsnet.DataPlane.Linux.Wireguard.{configure_wg_peers}
use gsnet.DataPlane.Linux.Fdb.Table.{IsTable, Distinct, has_mac}
use gsnet.DataPlane.Linux.Fdb.Rows.{wants, on_link_inv, reconcile_fdb-Holds}
use gsnet.DataPlane.Linux.Links.{
  ensure_wg_interface, after, overlay, has_overlay, is_router, ensure_vxlan, record_last, call, run,
  reconcile,
}

after_inv :
    {K : Type 0} (r : K × Bool) (f : K → K × Bool) (j : K)
    → after r f ≡ (j, true)
    → (i : K) × (r ≡ (i, true)) × (f i ≡ (j, true))
unfolding after
after_inv (i, true) f j e = (i, refl, e)
after_inv {K = K} (i, false) f j e = cc (ap (λ (r : K × Bool). r.1) e)

if_inv :
    {K : Type 0} (b : Bool) (r : K × Bool) (k j : K)
    → (if b then (k, false) else r) ≡ (j, true)
    → (b ≡ false) × (r ≡ (j, true))
if_inv {K = K} true r k j e = cc (ap (λ (r : K × Bool). r.1) e)
if_inv false r k j e = (refl, e)

-- A state that can be applied: its interface is named, and in switch and hub mode its overlay is set.
pub complete : State → Bool
complete s = not (text_eq s.wg_interface []) && (is_router s.mode || has_overlay s)

module _ {K : Type 0} (os : Kernel K) where
  -- What a run without an error did before the overlay.
  pub record Begun (k m : K) (s : State) : Type 0 where
    pub named : text_eq s.wg_interface [] ≡ false
    pub found : K
    pub ensured : ensure_wg_interface os k s ≡ (found, true)
    pub configured : call found (configure_wg_peers os found s) ≡ (m, true)

  run_inv :
      (k j : K) (s : State)
      → run os k s ≡ (j, true)
      → (i : K) × Begun k i s × (overlay os i s ≡ (j, true))
  unfolding run
  run_inv k j s e =
      let (named, e1) = if_inv (text_eq s.wg_interface []) _ k j e in
      let (k2, found, e2) =
        after_inv (ensure_wg_interface os k s)
          (λ i. after (call i (configure_wg_peers os i s)) (λ m. overlay os m s)) j e1 in
      let (k3, set, e3) =
        after_inv (call k2 (configure_wg_peers os k2 s)) (λ i. overlay os i s) j e2 in
      (k3, record { named = named; found = k2; ensured = found; configured = set }, e3)

  overlay_inv :
      (k j : K) (s : State)
      → is_router s.mode ≡ false
      → overlay os k s ≡ (j, true)
      → (has_overlay s ≡ true)
        × ((i : K) × (ensure_vxlan os k s ≡ (i, true))
            × (reconcile_fdb os i s.vxlan_interface s.peers ≡ (j, true)))
  unfolding overlay
  overlay_inv k j s h e = elim (Bool-cases (has_overlay s)) [
    | inl y ↦
        let (i, done, last) =
          after_inv (ensure_vxlan os k s) (λ i. reconcile_fdb os i s.vxlan_interface s.peers) j
            (rw (h, y) at e) in
        (y, (i, done, last))
    | inr n ↦ cc (ap (λ (r : K × Bool). r.1) (rw (h, n, overlay) at e))
  ]

  run-complete : (k j : K) (s : State) → run os k s ≡ (j, true) → complete s ≡ true
  unfolding complete
  run-complete k j s e =
      let (i, begun, e1) = run_inv k j s e in
      let named = begun.named in
      elim (Bool-cases (is_router s.mode)) [
        | inl r ↦ ground arith
        | inr n ↦ ground (arith, overlay_inv i j s n e1)
      ]

  recorded :
      (k : K) (s : State) (last : Option State) (r : K × Bool)
      → run os k s ≡ r
      → let (q, ok) = record_last s last r in
        ((ok ≡ true) × (q.1 ≡ some s) × (complete s ≡ true)) ⊎ ((ok ≡ false) × (q.1 ≡ last))
  unfolding record_last
  recorded k s last (j, true) e = inl (refl, refl, run-complete k j s e)
  recorded k s last (j, false) e = inr (refl, refl)

  -- `Reconcile` records the state it was given when no call failed, and then the state was complete:
  -- WGInterface is named and, but for router mode, so are VXLANInterface and both addresses. After an
  -- error the recorded state is the one before.
  pub reconcile_last :
      (k : K) (last : Option State) (s : State)
      → let (r, ok) = reconcile os k last s in
        ((ok ≡ true) × (r.1 ≡ some s) × (complete s ≡ true)) ⊎ ((ok ≡ false) × (r.1 ≡ last))
  unfolding reconcile
  reconcile_last k last s = recorded k s last (run os k s) refl

  -- What `reconcileFDB` left on the link with the name of VXLANInterface, against the rows it found there
  -- after `ensureVXLAN`: a row under a MAC that the run manages is there exactly if the peers want it and it
  -- was there, is for the broadcast MAC, or its MAC had no row. Every other row is as it was.
  pub record Settled (k j : K) (s : State) : Type 0 where
    pub configured : K
    pub begun : Begun k configured s
    pub ready : K
    pub prepared : ensure_vxlan os configured s ≡ (ready, true)
    pub device : Link
    pub rows_before : List Row
    pub rows_after : List Row
    pub named_before : os.link_by_name ready s.vxlan_interface ≡ link device
    pub before : os.neigh_list ready device ≡ some rows_before
    pub named_after : os.link_by_name j s.vxlan_interface ≡ link device
    pub after : os.neigh_list j device ≡ some rows_after
    pub rows :
        (q : Row)
        → holds rows_after q ≡ (
            if managed os s.peers q.0
            then wants os s.peers q
              && (holds rows_before q
                  || (text_eq (broadcast_text os) q.0 || not (has_mac rows_before q.0)))
            else holds rows_before q)

  -- After a run of `Reconcile` without an error, in switch or hub mode, the link with the name of
  -- VXLANInterface has, under each MAC that the run manages, exactly the rows that the peers want and that
  -- were there or that the kernel takes: it takes those of the broadcast MAC and those of a MAC that had no
  -- row. So a peer whose underlay address has changed has no unicast row after the run. No two peers share a
  -- MAC, and the calls on the table do what `IsTable` says.
  pub run_settles :
      (t : IsTable os) (k j : K) (s : State)
      → is_router s.mode ≡ false
      → Distinct os (wants os s.peers)
      → run os k s ≡ (j, true)
      → Settled k j s
  unfolding reconcile_fdb
  run_settles t k j s switched one e =
      let (m, begun, e2) = run_inv k j s e in
      let (set, (i, prepared, e3)) = overlay_inv m j s switched e2 in
      let (l, there, (rows, listed)) =
        on_link_inv os i j (os.link_by_name i s.vxlan_interface) s.peers e3 in
      let (still, (rows', now, h)) =
        reconcile_fdb-Holds os t i j s.vxlan_interface l s.peers rows one there listed e3 in
      record {
        configured = m;
        begun = begun;
        ready = i;
        prepared = prepared;
        device = l;
        rows_before = rows;
        rows_after = rows';
        named_before = there;
        before = listed;
        named_after = still;
        after = now;
        rows = h;
      }

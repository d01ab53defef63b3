-- ===== src/DataPlane/Linux/Fdb/Rows.antt =====
-- What `reconcileFDB` leaves in the forwarding table.
use gsnet.Common.{
  ◌≡◌, refl, ap, sym, ◌∙◌, List, [], ◌∷◌, ◌||◌, ◌&&◌, Bool, true, false, none, some, Text,
  text_eq_iff, text_eq_refl, if◌then◌else◌, arith, Bool-cases, Option-cases, inl, inr,
}
use gsnet.DataPlane.{Peer}
use gsnet.DataPlane.Linux.{Row, Link, LinkLookup, not_found, failed, link, Kernel}
use gsnet.DataPlane.Linux.Fdb.{
  row_eq, holds, add_row, broadcast_text, peer_text, desired, managed, managed_rows, append_rows,
  then_del, change_rows, on_link, reconcile_fdb,
}
use gsnet.DataPlane.Linux.Fdb.Table.{
  row_eq_iff, takes, IsTable, Distinct, Holds, false_run, append_rows-Holds, del_rows-Holds,
  append_names-eq, del_names-eq,
}

holds-add_row :
    (rows : List Row) (r q : Row) → holds (add_row rows r) q ≡ (row_eq r q || holds rows q)
unfolding add_row holds
holds-add_row rows r q = elim (Bool-cases (holds rows r)) [
  | inl e ↦ ground (arith, row_eq_iff r q)
  | inr e ↦ ground arith
]

module _ {K : Type 0} (os : Kernel K) where
  -- A peer with an underlay address wants the broadcast row and its own row to that address.
  unfoldable pub wants : List Peer → Row → Bool
  wants [] q = false
  wants (p ∷ ps) q = elim p.underlay_addr [
    | none ↦ wants ps q
    | some a ↦
        row_eq (broadcast_text os, os.ip_text a) q
        || row_eq (peer_text os p, os.ip_text a) q
        || wants ps q
  ]

  pub holds-desired :
      (ps : List Peer) (rows : List Row) (q : Row)
      → holds (desired os ps rows) q ≡ (wants ps q || holds rows q)
  unfolding desired wants
  holds-desired [] rows q = refl
  holds-desired (p ∷ ps) rows q = elim (Option-cases p.underlay_addr) [
    | inl e ↦ ground (arith, holds-desired ps rows q)
    | inr (a, e) ↦
        let one = add_row rows (broadcast_text os, os.ip_text a) in
        ground (
          arith,
          holds-desired ps (add_row one (peer_text os p, os.ip_text a)) q,
          holds-add_row one (peer_text os p, os.ip_text a) q,
          holds-add_row rows (broadcast_text os, os.ip_text a) q,
        )
  ]

  managed_broadcast : (ps : List Peer) → managed os ps (broadcast_text os) ≡ true
  unfolding managed
  managed_broadcast [] = text_eq_refl (broadcast_text os)
  managed_broadcast (p ∷ ps) = ground (arith, managed_broadcast ps)

  pub wants-managed : (ps : List Peer) (q : Row) → wants ps q ≡ true → managed os ps q.0 ≡ true
  unfolding wants managed
  wants-managed [] q h = cc
  wants-managed (p ∷ ps) (m, i) h =
      ground
        (arith, wants-managed ps (m, i), managed_broadcast ps, text_eq_iff (broadcast_text os) m)

  pub holds-managed_rows :
      (ps : List Peer) (rs have : List Row) (q : Row)
      → holds (managed_rows os ps rs have) q ≡ (holds have q || holds rs q && managed os ps q.0)
  unfolding managed_rows holds
  holds-managed_rows ps [] have q = ground arith
  holds-managed_rows ps (r ∷ rs) have q = elim (Bool-cases (managed os ps r.0)) [
    | inl e ↦
        rw (e, managed_rows)
          (ground (
            arith,
            holds-managed_rows ps rs (add_row have r) q,
            holds-add_row have r q,
            row_eq_iff r q,
          ))
    | inr e ↦ rw (e, managed_rows) (ground (arith, holds-managed_rows ps rs have q, row_eq_iff r q))
  ]

  then_del-Holds :
      (t : IsTable os) (ps : List Peer) (rows : List Row) (r : K × Bool) (k j : K) (l : Link)
      → Distinct os (wants ps)
      → os.neigh_list k l ≡ some rows
      → append_rows os k l (managed_rows os ps rows []) (desired os ps []) ≡ r
      → then_del os r l (desired os ps []) (managed_rows os ps rows []) ≡ (j, true)
      → Holds os j l (λ q.
        if managed os ps q.0 then wants ps q && (holds rows q || takes os rows q) else holds rows q)
  unfolding then_del holds
  then_del-Holds t ps rows (i, false) k j l one listed added e = absurd (false_run os i j e)
  then_del-Holds t ps rows (i, true) k j l one listed added e =
      let want = desired os ps [] in
      let have = managed_rows os ps rows [] in
      let (mid, listed', h) =
        append_rows-Holds os t want have k i l rows
          (λ q r hq hr. one q r (wanted ps q hq) (wanted ps r hr)) listed added in
      let (rows', now, h') = del_rows-Holds os t have want i j l mid listed' e in
      (
        rows',
        now,
        λ q. ground (
          arith,
          h q,
          h' q,
          holds-desired ps [] q,
          holds-managed_rows ps rows [] q,
          wants-managed ps q,
        ),
      )
    where
      wanted : (ps : List Peer) (q : Row) → holds (desired os ps []) q ≡ true → wants ps q ≡ true
      wanted ps q h = ground (arith, holds-desired ps [] q)

  then_del_names :
      (t : IsTable os) (r : K × Bool) (want have rs have' : List Row) (k j : K) (l : Link)
      (n : Text)
      → append_rows os k l have' rs ≡ r
      → then_del os r l want have ≡ (j, true)
      → os.link_by_name j n ≡ os.link_by_name k n
  unfolding then_del
  then_del_names t (i, false) want have rs have' k j l n added e = absurd (false_run os i j e)
  then_del_names t (i, true) want have rs have' k j l n added e =
      del_names-eq os t have want i j l n e ∙ append_names-eq os t rs have' k i l n added

  -- After a run with no error, a row under a MAC that the run manages, the broadcast MAC or that of a peer
  -- with an underlay address, is there exactly if the peers want it and it was there before or the kernel
  -- takes os it. Every other row is as it was, also one of a peer that is no longer there.
  pub reconcile_fdb-Holds :
      (t : IsTable os) (k j : K) (name : Text) (l : Link) (ps : List Peer) (rows : List Row)
      → Distinct os (wants ps)
      → os.link_by_name k name ≡ link l
      → os.neigh_list k l ≡ some rows
      → reconcile_fdb os k name ps ≡ (j, true)
      → (os.link_by_name j name ≡ link l)
        × Holds os j l (λ q.
          if managed os ps q.0
          then wants ps q && (holds rows q || takes os rows q)
          else holds rows q)
  unfolding reconcile_fdb change_rows on_link
  reconcile_fdb-Holds t k j name l ps rows one there listed e =
      let whole : change_rows os k l ps (some rows) ≡ (j, true) =
        ap (λ o. change_rows os k l ps o) (sym listed)
        ∙ ap (λ o. on_link os k o ps) (sym there)
        ∙ e in
      (
        then_del_names t _ (desired os ps []) (managed_rows os ps rows []) (desired os ps [])
              (managed_rows os ps rows []) k j l name refl whole
            ∙ there,
        then_del-Holds t ps rows _ k j l one listed refl whole,
      )

  -- A run without an error has found the link and read its rows.
  pub on_link_inv :
      (k j : K) (o : LinkLookup) (ps : List Peer)
      → on_link os k o ps ≡ (j, true)
      → (l : Link) × (o ≡ link l) × ((rows : List Row) × (os.neigh_list k l ≡ some rows))
  unfolding on_link change_rows
  on_link_inv k j not_found ps e = absurd (false_run os k j e)
  on_link_inv k j failed ps e = absurd (false_run os k j e)
  on_link_inv k j (link l) ps e = elim (Option-cases (os.neigh_list k l)) [
    | inl bad ↦ absurd (false_run os k j (rw (bad, change_rows) at e))
    | inr (rows, listed) ↦ (l, refl, (rows, listed))
  ]

-- ===== src/DataPlane/Linux/Fdb/Settled.antt =====
-- A second run of `reconcileFDB` finds nothing to do.
use gsnet.Common.{
  ◌≡◌, refl, ap, ◌∙◌, List, [], ◌∷◌, ◌||◌, ◌&&◌, Bool, true, false, some, Text, text_eq_refl, arith,
}
use gsnet.DataPlane.{Peer}
use gsnet.DataPlane.Linux.{Row, Link, link, Kernel}
use gsnet.DataPlane.Linux.Fdb.{
  holds, desired, managed, managed_rows, append_rows, del_rows, then_del, change_rows, on_link,
  reconcile_fdb,
}
use gsnet.DataPlane.Linux.Fdb.Table.{takes, Distinct, IsTable}
use gsnet.DataPlane.Linux.Fdb.Rows.{
  wants, holds-desired, wants-managed, holds-managed_rows, reconcile_fdb-Holds,
}

-- Every row of the first list is in the second.
abbrev Within : List Row → List Row → Type 0
Within rs qs = (q : Row) → holds rs q ≡ true → holds qs q ≡ true

Within-tail : (r : Row) (rs qs : List Row) → Within (r ∷ rs) qs → Within rs qs
unfolding holds
Within-tail r rs qs f q h = f q (ground arith)

Within-head : (r : Row) (rs qs : List Row) → Within (r ∷ rs) qs → holds qs r ≡ true
unfolding holds
Within-head (m, i) rs qs f = f (m, i) (ground (arith, text_eq_refl m, text_eq_refl i))

module _ {K : Type 0} (os : Kernel K) where
  append_rows_none :
      (k : K) (l : Link) (have rs : List Row)
      → Within rs have
      → append_rows os k l have rs ≡ (k, true)
  unfolding append_rows
  append_rows_none k l have [] f = refl
  append_rows_none k l have (r ∷ rs) f =
      rw (Within-head r rs have f, append_rows)
        (append_rows_none k l have rs (Within-tail r rs have f))

  del_rows_none :
      (k : K) (l : Link) (want rs : List Row) → Within rs want → del_rows os k l want rs ≡ (k, true)
  unfolding del_rows
  del_rows_none k l want [] f = refl
  del_rows_none k l want (r ∷ rs) f =
      rw (Within-head r rs want f, del_rows) (del_rows_none k l want rs (Within-tail r rs want f))

  settled :
      (k : K) (l : Link) (ps : List Peer) (rows : List Row)
      → ((q : Row) → managed os ps q.0 ≡ true → holds rows q ≡ wants os ps q)
      → change_rows os k l ps (some rows) ≡ (k, true)
  unfolding change_rows then_del holds
  settled k l ps rows f =
      let want = desired os ps [] in
      let have = managed_rows os ps rows [] in
      let there : Within want have = λ q h. ground (
        arith,
        f q,
        wants-managed os ps q,
        holds-desired os ps [] q,
        holds-managed_rows os ps rows [] q,
      ) in
      let wanted : Within have want =
        λ q h. ground (arith, f q, holds-desired os ps [] q, holds-managed_rows os ps rows [] q) in
      rw (append_rows_none k l have want there) (del_rows_none k l want have wanted)

  -- After a run with no error that could add every row that the peers want, a second run for the same peers
  -- changes nothing: it makes no call that appends or deletes a row, so it leaves the very state it found.
  pub reconcile_fdb_again :
      (t : IsTable os) (k j : K) (name : Text) (l : Link) (ps : List Peer) (rows : List Row)
      → Distinct os (wants os ps)
      → ((q : Row) → wants os ps q ≡ true → (holds rows q || takes os rows q) ≡ true)
      → os.link_by_name k name ≡ link l
      → os.neigh_list k l ≡ some rows
      → reconcile_fdb os k name ps ≡ (j, true)
      → reconcile_fdb os j name ps ≡ (j, true)
  unfolding reconcile_fdb on_link
  reconcile_fdb_again t k j name l ps rows one free there listed e =
      let (still, (rows', now, h)) =
        reconcile_fdb-Holds os t k j name l ps rows one there listed e in
      ap (λ o. on_link os j o ps) still
      ∙ ap (change_rows os j l ps) now
      ∙ settled j l ps rows' (λ q m. h q ∙ rw m (all_free (wants os ps q) _ (free q)))
    where
      all_free : (w f : Bool) → (w ≡ true → f ≡ true) → (w && f) ≡ w
      all_free true f h = h refl
      all_free false f h = refl

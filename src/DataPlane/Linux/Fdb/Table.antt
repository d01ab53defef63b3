-- ===== src/DataPlane/Linux/Fdb/Table.antt =====
-- The calls that change the forwarding table, and what a loop of them leaves.
use gsnet.Common.{
  ◌≡◌, ◌↔◌, refl, ap, sym, ◌∙◌, List, [], ◌∷◌, ◌||◌, ◌&&◌, not, Bool, true, false, some, Text,
  text_eq, text_eq_iff, text_eq_refl, arith, Bool-cases, Option-cases, inl, inr,
}
use std.Path.{subst}
use gsnet.DataPlane.Linux.{Row, Link, Kernel}
use gsnet.DataPlane.Linux.Fdb.{row_eq, holds, broadcast_text, append_rows, del_rows}

pub row_eq_iff : (a b : Row) → (row_eq a b ≡ true) ↔ (a ≡ b)
row_eq_iff (m, i) (n, j) = ground (arith, text_eq_iff m n, text_eq_iff i j)

-- A MAC has a row.
unfoldable pub has_mac : List Row → Text → Bool
has_mac [] m = false
has_mac (q ∷ rows) m = text_eq q.0 m || has_mac rows m

has_mac-holds : (rows : List Row) (q : Row) → holds rows q ≡ true → has_mac rows q.0 ≡ true
unfolding has_mac holds
has_mac-holds [] q h = cc h
has_mac-holds ((n, j) ∷ rows) (m, i) h = ground (arith, has_mac-holds rows (m, i))

holds-has_mac :
    (rows : List Row) (m : Text) → has_mac rows m ≡ true → (i : Text) × (holds rows (m, i) ≡ true)
unfolding has_mac holds
holds-has_mac [] m h = cc h
holds-has_mac ((n, j) ∷ rows) m h = elim (Bool-cases (text_eq n m)) [
  | inl same ↦ (j, rw (same, text_eq_refl j) refl)
  | inr other ↦
      let (i, there) = holds-has_mac rows m (rw (other, has_mac) at h) in
      (i, rw (other, holds) there)
]

module _ {K : Type 0} (os : Kernel K) where
  -- The kernel adds a row for the broadcast MAC, which may have many, and for a MAC that has none. For a
  -- unicast MAC that has a row it ignores an append, without an error.
  abbrev pub takes : List Row → Row → Bool
  takes rows r = text_eq (broadcast_text os) r.0 || not (has_mac rows r.0)

  -- What the kernel does, on a link that is no port of a bridge: an append without an error adds the row
  -- if `takes` says so and nothing otherwise, a delete without an error takes the row away, and neither
  -- changes what link has which name.
  pub record IsTable : Type 0 where
    pub appends :
        (k : K) (l : Link) (r : Row) (rows : List Row) (j : K)
        → os.neigh_list k l ≡ some rows
        → os.neigh_append k l r ≡ some j
        → (rows' : List Row) × (os.neigh_list j l ≡ some rows')
          × ((q : Row) → holds rows' q ≡ (row_eq r q && takes rows r || holds rows q))
    pub deletes :
        (k : K) (l : Link) (r : Row) (rows : List Row) (j : K)
        → os.neigh_list k l ≡ some rows
        → os.neigh_del k l r ≡ some j
        → (rows' : List Row) × (os.neigh_list j l ≡ some rows')
          × ((q : Row) → holds rows' q ≡ (holds rows q && not (row_eq r q)))
    pub append_names :
        (k : K) (l : Link) (r : Row) (j : K) (n : Text)
        → os.neigh_append k l r ≡ some j
        → os.link_by_name j n ≡ os.link_by_name k n
    pub del_names :
        (k : K) (l : Link) (r : Row) (j : K) (n : Text)
        → os.neigh_del k l r ≡ some j
        → os.link_by_name j n ≡ os.link_by_name k n

  -- A unicast MAC stands in one row only.
  abbrev pub Distinct : (Row → Bool) → Type 0
  Distinct P =
      (q r : Row)
      → P q ≡ true
      → P r ≡ true
      → q.0 ≡ r.0
      → text_eq (broadcast_text os) q.0 ≡ false
      → q ≡ r

  -- The table on link l in state j holds exactly the rows of which P is true.
  abbrev pub Holds : K → Link → (Row → Bool) → Type 0
  Holds j l P =
      (rows : List Row) × (os.neigh_list j l ≡ some rows) × ((q : Row) → holds rows q ≡ P q)

  pub false_run : (k j : K) → ◌≡◌ {A = K × Bool} (k, false) (j, true) → ⊥
  false_run k j e = cc (ap (λ (r : K × Bool). r.1) e)

  ended :
      (k j : K) (l : Link) (rows : List Row)
      → os.neigh_list k l ≡ some rows
      → ◌≡◌ {A = K × Bool} (k, true) (j, true)
      → os.neigh_list j l ≡ some rows
  ended k j l rows listed e = ap (λ (r : K × Bool). os.neigh_list r.0 l) (sym e) ∙ listed

  -- A row of another MAC or of the broadcast MAC is taken after an append if it was taken before.
  takes-append :
      (r q : Row) (rows mid : List Row)
      → ((x : Row) → holds mid x ≡ (row_eq r x && takes rows r || holds rows x))
      → (r.0 ≡ q.0 → text_eq (broadcast_text os) q.0 ≡ false → r ≡ q)
      → row_eq r q ≡ false
      → takes mid q ≡ takes rows q
  takes-append r q rows mid h one other = elim (Bool-cases (text_eq (broadcast_text os) q.0)) [
    | inl b ↦ rw b refl
    | inr b ↦ elim (Bool-cases (has_mac rows q.0)) [
      | inl old ↦
          let (i, there) = holds-has_mac rows q.0 old in
          let still : has_mac mid q.0 ≡ true =
            has_mac-holds mid (q.0, i) (h (q.0, i) ∙ ground (arith, there)) in
          rw (b, old, still) refl
      | inr new ↦ elim (Bool-cases (has_mac mid q.0)) [
        | inr still ↦ rw (b, new, still) refl
        | inl came ↦
            let (i, there) = holds-has_mac mid q.0 came in
            let absent : holds rows (q.0, i) ≡ false = not_held rows (q.0, i) new in
            let hit : row_eq r (q.0, i) ≡ true = ground (arith, h (q.0, i), there, absent) in
            let same : r ≡ (q.0, i) = (row_eq_iff r (q.0, i)).0 hit in
            let own : r ≡ q = one (ap (λ (x : Row). x.0) same) b in
            cc ((row_eq_iff r q).1 own, other)
      ]
    ]
  ]
    where
      not_held : (rows : List Row) (x : Row) → has_mac rows x.0 ≡ false → holds rows x ≡ false
      not_held rows x h = ground (arith, has_mac-holds rows x)

  takes_back :
      (r : Row) (rows mid : List Row)
      → ((x : Row) → holds mid x ≡ (row_eq r x && takes rows r || holds rows x))
      → takes mid r ≡ true
      → takes rows r ≡ true
  takes_back r rows mid h free = elim (Bool-cases (has_mac rows r.0)) [
    | inr new ↦ rw new (ground arith)
    | inl old ↦
        let (i, there) = holds-has_mac rows r.0 old in
        let still : has_mac mid r.0 ≡ true =
          has_mac-holds mid (r.0, i) (h (r.0, i) ∙ ground (arith, there)) in
        ground (arith, free, still)
  ]

  pub append_rows-Holds :
      (t : IsTable) (rs have : List Row) (k j : K) (l : Link) (rows : List Row)
      → Distinct (holds rs)
      → os.neigh_list k l ≡ some rows
      → append_rows os k l have rs ≡ (j, true)
      → Holds j l (λ q. holds rows q || holds rs q && not (holds have q) && takes rows q)
  unfolding append_rows holds
  append_rows-Holds t [] have k j l rows one listed e =
      (rows, ended k j l rows listed e, λ q. ground arith)
  append_rows-Holds t (r ∷ rs) have k j l rows one listed e =
      let rest : Distinct (holds rs) =
        λ q x hq hx. one q x (ground (arith, hq)) (ground (arith, hx)) in
      elim (Bool-cases (holds have r)) [
        | inl old ↦
            let (rows', now, h) =
              append_rows-Holds t rs have k j l rows rest listed (rw (old, append_rows) at e) in
            (rows', now, λ q. ground (arith, h q, row_eq_iff r q))
        | inr new ↦ elim (Option-cases (os.neigh_append k l r)) [
          | inl bad ↦ absurd (false_run k j (rw (new, bad, append_rows) at e))
          | inr (i, done) ↦
              let (mid, listed', h) = t.appends k l r rows i listed done in
              let (rows', now, h') =
                append_rows-Holds t rs have i j l mid rest listed'
                  (rw (new, done, append_rows) at e) in
              (rows', now, λ q. h' q ∙ appended r q rs have rows mid one new h)
        ]
      ]
    where
      appended :
          (r q : Row) (rs have rows mid : List Row)
          → Distinct (holds (r ∷ rs))
          → holds have r ≡ false
          → ((x : Row) → holds mid x ≡ (row_eq r x && takes rows r || holds rows x))
          → (holds mid q || holds rs q && not (holds have q) && takes mid q)
            ≡ (holds rows q || holds (r ∷ rs) q && not (holds have q) && takes rows q)
      appended r q rs have rows mid one new h = elim (Bool-cases (row_eq r q)) [
        | inl same ↦
            let e : r ≡ q = (row_eq_iff r q).0 same in
            subst
              (λ x.
                (holds mid x || holds rs x && not (holds have x) && takes mid x)
                ≡ (holds rows x || holds (r ∷ rs) x && not (holds have x) && takes rows x))
              e (own r rs have rows mid new h)
        | inr other ↦ elim (Bool-cases (holds rs q)) [
          | inr off ↦ rw (h q, other, off) refl
          | inl on ↦
              let kept : takes mid q ≡ takes rows q =
                takes-append r q rows mid h
                  (λ m b. sym (one q r (rw (on, other) refl) (rw (row_refl r) refl) (sym m) b))
                  other in
              rw (h q, other, on, kept) refl
        ]
      ]
        where
          row_refl : (r : Row) → row_eq r r ≡ true
          row_refl r = (row_eq_iff r r).1 refl

          own :
              (r : Row) (rs have rows mid : List Row)
              → holds have r ≡ false
              → ((x : Row) → holds mid x ≡ (row_eq r x && takes rows r || holds rows x))
              → (holds mid r || holds rs r && not (holds have r) && takes mid r)
                ≡ (holds rows r || holds (r ∷ rs) r && not (holds have r) && takes rows r)
          own r rs have rows mid new h =
              let back = takes_back r rows mid h in
              elim (Bool-cases (takes rows r)) [
                | inl free ↦ rw (h r, row_refl r, new, free) (ground arith)
                | inr taken ↦ elim (Bool-cases (takes mid r)) [
                  | inl odd ↦ cc (back odd, taken)
                  | inr no_more ↦ rw (h r, row_refl r, new, taken, no_more) (ground arith)
                ]
              ]

  pub del_rows-Holds :
      (t : IsTable) (rs want : List Row) (k j : K) (l : Link) (rows : List Row)
      → os.neigh_list k l ≡ some rows
      → del_rows os k l want rs ≡ (j, true)
      → Holds j l (λ q. holds rows q && not (holds rs q && not (holds want q)))
  unfolding del_rows holds
  del_rows-Holds t [] want k j l rows listed e =
      (rows, ended k j l rows listed e, λ q. ground arith)
  del_rows-Holds t (r ∷ rs) want k j l rows listed e = elim (Bool-cases (holds want r)) [
    | inl old ↦
        let (rows', now, h) =
          del_rows-Holds t rs want k j l rows listed (rw (old, del_rows) at e) in
        (rows', now, λ q. ground (arith, h q, row_eq_iff r q))
    | inr new ↦ elim (Option-cases (os.neigh_del k l r)) [
      | inl bad ↦ absurd (false_run k j (rw (new, bad, del_rows) at e))
      | inr (i, done) ↦
          let (mid, listed', h) = t.deletes k l r rows i listed done in
          let (rows', now, h') =
            del_rows-Holds t rs want i j l mid listed' (rw (new, done, del_rows) at e) in
          (rows', now, λ q. ground (arith, h q, h' q, row_eq_iff r q))
    ]
  ]

  pub append_names-eq :
      (t : IsTable) (rs have : List Row) (k j : K) (l : Link) (n : Text)
      → append_rows os k l have rs ≡ (j, true)
      → os.link_by_name j n ≡ os.link_by_name k n
  unfolding append_rows
  append_names-eq t [] have k j l n e = ap (λ (r : K × Bool). os.link_by_name r.0 n) (sym e)
  append_names-eq t (r ∷ rs) have k j l n e = elim (Bool-cases (holds have r)) [
    | inl old ↦ append_names-eq t rs have k j l n (rw (old, append_rows) at e)
    | inr new ↦ elim (Option-cases (os.neigh_append k l r)) [
      | inl bad ↦ absurd (false_run k j (rw (new, bad, append_rows) at e))
      | inr (i, done) ↦
          append_names-eq t rs have i j l n (rw (new, done, append_rows) at e)
          ∙ t.append_names k l r i n done
    ]
  ]

  pub del_names-eq :
      (t : IsTable) (rs want : List Row) (k j : K) (l : Link) (n : Text)
      → del_rows os k l want rs ≡ (j, true)
      → os.link_by_name j n ≡ os.link_by_name k n
  unfolding del_rows
  del_names-eq t [] want k j l n e = ap (λ (r : K × Bool). os.link_by_name r.0 n) (sym e)
  del_names-eq t (r ∷ rs) want k j l n e = elim (Bool-cases (holds want r)) [
    | inl old ↦ del_names-eq t rs want k j l n (rw (old, del_rows) at e)
    | inr new ↦ elim (Option-cases (os.neigh_del k l r)) [
      | inl bad ↦ absurd (false_run k j (rw (new, bad, del_rows) at e))
      | inr (i, done) ↦
          del_names-eq t rs want i j l n (rw (new, done, del_rows) at e)
          ∙ t.del_names k l r i n done
    ]
  ]

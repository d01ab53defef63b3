-- ===== src/Graph/Subnets.antt =====
-- Who owns a subnet, as the four operations on subnets see it.
use gsnet.Common.{
  ◌≡◌, Option, none, some, [], ◌&&◌, ◌||◌, not, Bool, false, Text, text_eq, text_eq_iff,
  text_eq_refl, arith, inl, inr, Option-cases,
}
use gsnet.Dict.{contains, get, has, put, delete}
use gsnet.Dict.Laws.{get-put, get-delete, contains-keys}
use gsnet.Dict.Entries.{has-put, put-IsDict}
use gsnet.Graph.{Graph, NodeData, ensure_node, add_subnet, del_subnet, node_subnets}
use gsnet.Graph.Edges.{cell, cell-ensure_node, has-ensure_node}
use gsnet.Graph.WellFormed.{IsWellFormed, ensure_node-IsWellFormed}

abbrev pub owned : Option NodeData → Text → Bool
owned none s = false
owned (some n) s = has n.subnets s

-- Node `n` is in the graph and holds subnet `s`.
abbrev pub owns : Graph → Text → Text → Bool
owns g n s = owned (get g.nodes n) s

pub owned-ensure_node : (g : Graph) (n m s : Text) → owns (ensure_node g n) m s ≡ owns g m s
unfolding ensure_node get
owned-ensure_node g n m s =
    ground (arith, get-put g.nodes n (record { subnets = [] }) m, text_eq_iff n m)

-- After `AddSubnet` exactly the given node owns the subnet in addition to what was owned before.
pub owns-add_subnet :
    (g : Graph) (owner subnet n s : Text)
    → owns (add_subnet g owner subnet) n s ≡ (text_eq owner n && text_eq subnet s || owns g n s)
unfolding add_subnet
owns-add_subnet g owner subnet n s =
    let h = ensure_node g owner in
    elim (Option-cases (get h.nodes owner)) [
      | inl e ↦ cc (has-ensure_node g owner owner, text_eq_refl owner, e)
      | inr (d, e) ↦ ground (
        arith,
        e,
        get-put h.nodes owner (record { subnets = put d.subnets subnet tt }) n,
        has-put d.subnets subnet tt s,
        owned-ensure_node g owner n s,
        text_eq_iff owner n,
      )
    ]

-- After `DelSubnet` exactly the given node no longer owns the subnet; all else is owned as before.
pub owns-del_subnet :
    (g : Graph) (owner subnet n s : Text)
    → owns (del_subnet g owner subnet) n s
      ≡ (owns g n s && not (text_eq owner n && text_eq subnet s))
unfolding del_subnet
owns-del_subnet g owner subnet n s = elim (Option-cases (get g.nodes owner)) [
  | inl e ↦ ground (arith, e, text_eq_iff owner n)
  | inr (d, e) ↦ ground (
    arith,
    e,
    get-put g.nodes owner (record { subnets = delete d.subnets subnet }) n,
    get-delete d.subnets subnet s,
    text_eq_iff owner n,
  )
]

pub owns-node_subnets : (g : Graph) (n s : Text) → contains s (node_subnets g n) ≡ owns g n s
unfolding node_subnets contains
owns-node_subnets g n s = elim (Option-cases (get g.nodes n)) [
  | inl e ↦ ground (arith, e)
  | inr (d, e) ↦ ground (arith, e, contains-keys d.subnets s)
]

subnets-IsWellFormed :
    (g : Graph) (n : Text) (d e : NodeData)
    → get g.nodes n ≡ some d
    → IsWellFormed g
    → IsWellFormed (record g { nodes = put g.nodes n e })
subnets-IsWellFormed g n d e p h = record {
  aligned = λ x. ground (arith, has-put g.nodes n e x, text_eq_iff n x, h.aligned x);
  symmetric = h.symmetric;
  named = h.named;
  closed = λ a b q. ground (arith, has-put g.nodes n e b, h.closed a b);
  distinct = put-IsDict g.nodes n e h.distinct;
}

pub add_subnet-IsWellFormed :
    (g : Graph) (owner subnet : Text) → IsWellFormed g → IsWellFormed (add_subnet g owner subnet)
unfolding add_subnet
add_subnet-IsWellFormed g owner subnet w =
    let h = ensure_node g owner in
    let w' = ensure_node-IsWellFormed g owner w in
    elim (Option-cases (get h.nodes owner)) [
      | inl e ↦ rw (e, add_subnet) w'
      | inr (d, e) ↦
          rw (e, add_subnet)
            (subnets-IsWellFormed h owner d (record { subnets = put d.subnets subnet tt }) e w')
    ]

pub del_subnet-IsWellFormed :
    (g : Graph) (owner subnet : Text) → IsWellFormed g → IsWellFormed (del_subnet g owner subnet)
unfolding del_subnet
del_subnet-IsWellFormed g owner subnet w = elim (Option-cases (get g.nodes owner)) [
  | inl e ↦ rw (e, del_subnet) w
  | inr (d, e) ↦
      rw (e, del_subnet)
        (subnets-IsWellFormed g owner d (record { subnets = delete d.subnets subnet }) e w)
]

-- Subnets never change the edges.
pub cell-add_subnet :
    (g : Graph) (owner subnet x y : Text)
    → IsWellFormed g
    → cell (add_subnet g owner subnet).adj x y ≡ cell g.adj x y
unfolding add_subnet
cell-add_subnet g owner subnet x y w =
    let h = ensure_node g owner in
    let same = cell-ensure_node g owner x y (w.aligned owner) in
    elim (Option-cases (get h.nodes owner)) [
      | inl e ↦ rw (e, add_subnet) same
      | inr (d, e) ↦ rw (e, add_subnet) same
    ]

pub cell-del_subnet :
    (g : Graph) (owner subnet x y : Text)
    → cell (del_subnet g owner subnet).adj x y ≡ cell g.adj x y
unfolding del_subnet
cell-del_subnet g owner subnet x y = elim (Option-cases (get g.nodes owner)) [
  | inl e ↦ rw (e, del_subnet)
  | inr (d, e) ↦ rw (e, del_subnet)
]

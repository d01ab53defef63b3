-- ===== src/Graph/WellFormed.antt =====
-- The invariant of the graph: both halves of every edge are stored, under their own names, between
-- nodes that exist. Every operation keeps it.
use gsnet.Common.{
  ◌≡◌, refl, Option, none, some, [], ◌&&◌, ◌||◌, true, Text, text_eq, text_eq_iff, text_eq_refl,
  is_some, if◌then◌else◌, arith, inl, inr, Bool-cases,
}
use gsnet.Dict.{get, has}
use gsnet.Dict.Entries.{IsDict, put-IsDict}
use gsnet.Graph.{Edge, Graph, new, ensure_node, link, unlink, reverse_edge, add_edge, del_edge}
use gsnet.Graph.Edges.{
  cell, cell-link, cell-unlink, cell-ensure_node, has-link, has-unlink, has-ensure_node,
  has_row-ensure_node,
}

abbrev pub flip : Option Edge → Option Edge
flip none = none
flip (some e) = some (reverse_edge e)

-- An edge that is stored for a and b runs from a to b.
abbrev pub RunsBetween : Text → Text → Option Edge → Type 0
RunsBetween a b none = Unit
RunsBetween a b (some e) = (e.from ≡ a) × (e.to ≡ b)

pub record IsWellFormed (g : Graph) : Type 0 where
  pub aligned : (n : Text) → has g.nodes n ≡ has g.adj n
  pub symmetric : (a b : Text) → cell g.adj b a ≡ flip (cell g.adj a b)
  pub named : (a b : Text) → RunsBetween a b (cell g.adj a b)
  pub closed : (a b : Text) → is_some (cell g.adj a b) ≡ true → has g.nodes b ≡ true
  pub distinct : IsDict g.nodes

pub new-IsWellFormed : IsWellFormed new
unfolding get
new-IsWellFormed = record {
  aligned = λ n. refl;
  symmetric = λ a b. refl;
  named = λ a b. tt;
  closed = λ a b h. cc;
  distinct = tt;
}

nodes-ensure_node-IsDict : (g : Graph) (n : Text) → IsDict g.nodes → IsDict (ensure_node g n).nodes
unfolding ensure_node
nodes-ensure_node-IsDict g n h = elim (Bool-cases (has g.nodes n)) [
  | inl e ↦ rw e h
  | inr e ↦ rw e (put-IsDict g.nodes n (record { subnets = [] }) h)
]

pub ensure_node-IsWellFormed :
    (g : Graph) (n : Text) → IsWellFormed g → IsWellFormed (ensure_node g n)
ensure_node-IsWellFormed g n h = record {
  aligned = λ x. ground (
    arith,
    h.aligned n,
    h.aligned x,
    has-ensure_node g n x,
    has_row-ensure_node g n x (h.aligned n),
  );
  symmetric = λ a b. ground (
    arith,
    h.symmetric a b,
    cell-ensure_node g n a b (h.aligned n),
    cell-ensure_node g n b a (h.aligned n),
  );
  named = λ a b. rw (cell-ensure_node g n a b (h.aligned n)) (h.named a b);
  closed = λ a b p.
      ground (arith, h.closed a b, has-ensure_node g n b, cell-ensure_node g n a b (h.aligned n));
  distinct = nodes-ensure_node-IsDict g n h.distinct;
}

-- The edges of a graph to which `AddEdge` adds one.
pub cell-add_edge :
    (g : Graph) (e : Edge) (x y : Text)
    → IsWellFormed g
    → cell (add_edge g e).adj x y ≡ (
        if text_eq e.to x && text_eq e.from y
        then some (reverse_edge e)
        else if text_eq e.from x && text_eq e.to y
        then some e
        else cell g.adj x y)
unfolding add_edge
cell-add_edge g e x y h =
    let g1 = ensure_node g e.from in
    let h1 = ensure_node-IsWellFormed g e.from h in
    let g2 = ensure_node g1 e.to in
    ground (
      arith,
      cell-link (link g2.adj e.from e.to e) e.to e.from (reverse_edge e) x y,
      cell-link g2.adj e.from e.to e x y,
      cell-ensure_node g1 e.to x y (h1.aligned e.to),
      cell-ensure_node g e.from x y (h.aligned e.from),
    )

has-add_edge :
    (g : Graph) (e : Edge) (x : Text)
    → has (add_edge g e).nodes x ≡ (text_eq e.from x || text_eq e.to x || has g.nodes x)
unfolding add_edge
has-add_edge g e x =
    ground (arith, has-ensure_node (ensure_node g e.from) e.to x, has-ensure_node g e.from x)

has_row-add_edge :
    (g : Graph) (e : Edge) (x : Text)
    → IsWellFormed g
    → has (add_edge g e).adj x ≡ (text_eq e.from x || text_eq e.to x || has g.adj x)
unfolding add_edge
has_row-add_edge g e x h =
    let g1 = ensure_node g e.from in
    let h1 = ensure_node-IsWellFormed g e.from h in
    let g2 = ensure_node g1 e.to in
    ground (
      arith,
      has-link (link g2.adj e.from e.to e) e.to e.from (reverse_edge e) x,
      has-link g2.adj e.from e.to e x,
      has_row-ensure_node g1 e.to x (h1.aligned e.to),
      has_row-ensure_node g e.from x (h.aligned e.from),
    )

pub add_edge-IsWellFormed : (g : Graph) (e : Edge) → IsWellFormed g → IsWellFormed (add_edge g e)
add_edge-IsWellFormed g e h = record {
  aligned = λ x. ground (arith, has-add_edge g e x, has_row-add_edge g e x h, h.aligned x);
  symmetric = λ a b. ground (
    arith,
    cell-add_edge g e a b h,
    cell-add_edge g e b a h,
    h.symmetric a b,
    text_eq_iff e.from a,
    text_eq_iff e.from b,
    text_eq_iff e.to a,
    text_eq_iff e.to b,
  );
  named = λ a b. rw (cell-add_edge g e a b h) (
      ground (
        arith,
        h.named a b,
        text_eq_iff e.from a,
        text_eq_iff e.from b,
        text_eq_iff e.to a,
        text_eq_iff e.to b,
      ));
  closed = λ a b p. ground (arith, has-add_edge g e b, h.closed a b, cell-add_edge g e a b h);
  distinct =
      unfold add_edge in
      nodes-ensure_node-IsDict (ensure_node g e.from) e.to
        (nodes-ensure_node-IsDict g e.from h.distinct);
}

-- The edges of a graph from which `DelEdge` removes one.
pub cell-del_edge :
    (g : Graph) (a b x y : Text)
    → cell (del_edge g a b).adj x y
      ≡ (if text_eq a x && text_eq b y || text_eq b x && text_eq a y then none else cell g.adj x y)
unfolding del_edge
cell-del_edge g a b x y =
    ground (arith, cell-unlink (unlink g.adj a b) b a x y, cell-unlink g.adj a b x y)

pub del_edge-IsWellFormed :
    (g : Graph) (a b : Text) → IsWellFormed g → IsWellFormed (del_edge g a b)
del_edge-IsWellFormed g a b h = record {
  aligned = λ x.
      unfold del_edge in
      ground (arith, has-unlink (unlink g.adj a b) b a x, has-unlink g.adj a b x, h.aligned x);
  symmetric =
      λ x y. ground (arith, cell-del_edge g a b x y, cell-del_edge g a b y x, h.symmetric x y);
  named = λ x y. rw (cell-del_edge g a b x y) (ground (arith, h.named x y));
  closed = λ x y p. unfold del_edge in ground (arith, h.closed x y, cell-del_edge g a b x y);
  distinct = unfold del_edge in h.distinct;
}

-- When `AddEdge` writes to the adjacency map, both rows that it writes to are there, so neither write
-- is to a nil map.
pub add_edge-has_rows :
    (g : Graph) (e : Edge)
    → IsWellFormed g
    → (has (ensure_node (ensure_node g e.from) e.to).adj e.from ≡ true)
      × (has (ensure_node (ensure_node g e.from) e.to).adj e.to ≡ true)
add_edge-has_rows g e h =
    let g1 = ensure_node g e.from in
    let h1 = ensure_node-IsWellFormed g e.from h in
    ground (
      arith,
      has_row-ensure_node g1 e.to e.from (h1.aligned e.to),
      has_row-ensure_node g1 e.to e.to (h1.aligned e.to),
      has_row-ensure_node g e.from e.from (h.aligned e.from),
      text_eq_refl e.from,
      text_eq_refl e.to,
    )

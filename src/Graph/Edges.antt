-- ===== src/Graph/Edges.antt =====
-- What a read of an edge finds after `AddNode`, `AddEdge` and `DelEdge`.
use gsnet.Common.{
  ◌≡◌, Option, none, some, [], inl, inr, Option-cases, ◌&&◌, ◌||◌, Text, text_eq, text_eq_iff,
  if◌then◌else◌, arith,
}
use gsnet.Dict.{Dict, get, has, put, delete}
use gsnet.Dict.Laws.{get-put, get-delete}
use gsnet.Graph.{Edge, Graph, ensure_node, neighbours, link, unlink}

-- The edge stored for a and b in an adjacency map.
abbrev pub cell : Dict (Dict Edge) → Text → Text → Option Edge
cell adj a b = get (neighbours adj a) b

pub cell-link :
    (adj : Dict (Dict Edge)) (a b : Text) (e : Edge) (x y : Text)
    → cell (link adj a b e) x y ≡ (if text_eq a x && text_eq b y then some e else cell adj x y)
cell-link adj a b e x y = ground (
  arith,
  get-put adj a (put (neighbours adj a) b e) x,
  get-put (neighbours adj a) b e y,
  text_eq_iff a x,
)

pub cell-unlink :
    (adj : Dict (Dict Edge)) (a b x y : Text)
    → cell (unlink adj a b) x y ≡ (if text_eq a x && text_eq b y then none else cell adj x y)
unfolding unlink get
cell-unlink adj a b x y = elim (Option-cases (get adj a)) [
  | inl e ↦ ground (arith, e, text_eq_iff a x)
  | inr (m, e) ↦
      ground
        (arith, e, get-put adj a (delete m b) x, get-delete m b y, text_eq_iff a x, text_eq_iff b y)
]

pub has-link :
    (adj : Dict (Dict Edge)) (a b : Text) (e : Edge) (x : Text)
    → has (link adj a b e) x ≡ (text_eq a x || has adj x)
has-link adj a b e x = ground (arith, get-put adj a (put (neighbours adj a) b e) x)

pub has-unlink : (adj : Dict (Dict Edge)) (a b x : Text) → has (unlink adj a b) x ≡ has adj x
unfolding unlink
has-unlink adj a b x = elim (Option-cases (get adj a)) [
  | inl e ↦ ground (arith, e)
  | inr (m, e) ↦ ground (arith, e, get-put adj a (delete m b) x, text_eq_iff a x)
]

pub has-ensure_node :
    (g : Graph) (n x : Text) → has (ensure_node g n).nodes x ≡ (text_eq n x || has g.nodes x)
unfolding ensure_node
has-ensure_node g n x =
    ground (arith, get-put g.nodes n (record { subnets = [] }) x, text_eq_iff n x)

-- A new row is empty, as a missing one reads.
pub cell-ensure_node :
    (g : Graph) (n x y : Text)
    → (has g.nodes n ≡ has g.adj n)
    → cell (ensure_node g n).adj x y ≡ cell g.adj x y
unfolding ensure_node get
cell-ensure_node g n x y h = ground (arith, get-put g.adj n [] x, text_eq_iff n x)

pub has_row-ensure_node :
    (g : Graph) (n x : Text)
    → has g.nodes n ≡ has g.adj n
    → has (ensure_node g n).adj x ≡ (text_eq n x || has g.adj x)
unfolding ensure_node
has_row-ensure_node g n x h = ground (arith, get-put g.adj n [] x, text_eq_iff n x)

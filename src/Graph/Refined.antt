-- ===== src/Graph/Refined.antt =====
-- What the graph promises, with no word about its maps: which edge runs from one node to another, and
-- which node owns which subnet.
use gsnet.Common.{
  ◌≡◌, refl, ap, ◌∙◌, Option, none, some, List, [], ◌∷◌, ◌&&◌, ◌||◌, not, Bool, Text, text_eq,
  if◌then◌else◌,
}
use gsnet.Graph.{Edge, Graph, add_edge, del_edge, add_subnet, del_subnet, reverse_edge, ensure_node}
use gsnet.Graph.Edges.{cell}
use gsnet.Graph.WellFormed.{
  IsWellFormed, cell-add_edge, cell-del_edge, add_edge-IsWellFormed, del_edge-IsWellFormed,
}
use gsnet.Graph.Subnets.{
  owns, owned-ensure_node, owns-add_subnet, owns-del_subnet, add_subnet-IsWellFormed,
  del_subnet-IsWellFormed, cell-add_subnet, cell-del_subnet,
}

-- The abstract graph.
pub record View : Type 0 where
  pub edge_at : Text → Text → Option Edge
  pub owner_of : Text → Text → Bool

pub data Change : Type 0 where
  edge_added : Edge → Change
  edge_deleted subnet_added subnet_deleted : Text → Text → Change

-- What each operation promises.
pub promised : View → Change → View
promised v (edge_added e) = record v {
  edge_at = λ x y.
      if text_eq e.to x && text_eq e.from y
      then some (reverse_edge e)
      else if text_eq e.from x && text_eq e.to y
      then some e
      else v.edge_at x y;
}
promised v (edge_deleted a b) = record v {
  edge_at = λ x y.
      if text_eq a x && text_eq b y || text_eq b x && text_eq a y then none else v.edge_at x y;
}
promised v (subnet_added owner s) = record v {
  owner_of = λ x t. text_eq owner x && text_eq s t || v.owner_of x t;
}
promised v (subnet_deleted owner s) = record v {
  owner_of = λ x t. v.owner_of x t && not (text_eq owner x && text_eq s t);
}

-- What each operation does.
pub run : Graph → Change → Graph
unfolding add_edge del_edge add_subnet del_subnet
run g (edge_added e) = add_edge g e
run g (edge_deleted a b) = del_edge g a b
run g (subnet_added owner s) = add_subnet g owner s
run g (subnet_deleted owner s) = del_subnet g owner s

abbrev pub run_all : Graph → List Change → Graph
run_all g [] = g
run_all g (c ∷ cs) = run_all (run g c) cs

abbrev pub promised_all : View → List Change → View
promised_all v [] = v
promised_all v (c ∷ cs) = promised_all (promised v c) cs

abbrev pub view : Graph → View
view g = record { edge_at = λ x y. cell g.adj x y; owner_of = λ x t. owns g x t }

-- Two views that agree everywhere are one.
view_ext :
    (v w : View)
    → ((x y : Text) → v.edge_at x y ≡ w.edge_at x y)
    → ((x t : Text) → v.owner_of x t ≡ w.owner_of x t)
    → v ≡ w
view_ext v w f h = λ i. record { edge_at = λ x y. f x y i; owner_of = λ x t. h x t i }

owns-add_edge : (g : Graph) (e : Edge) (x t : Text) → owns (add_edge g e) x t ≡ owns g x t
unfolding add_edge
owns-add_edge g e x t =
    owned-ensure_node (ensure_node g e.from) e.to x t ∙ owned-ensure_node g e.from x t

run-IsWellFormed : (g : Graph) (c : Change) → IsWellFormed g → IsWellFormed (run g c)
unfolding run
run-IsWellFormed g (edge_added e) h = add_edge-IsWellFormed g e h
run-IsWellFormed g (edge_deleted a b) h = del_edge-IsWellFormed g a b h
run-IsWellFormed g (subnet_added owner s) h = add_subnet-IsWellFormed g owner s h
run-IsWellFormed g (subnet_deleted owner s) h = del_subnet-IsWellFormed g owner s h

view-run : (g : Graph) (c : Change) → IsWellFormed g → view (run g c) ≡ promised (view g) c
unfolding run promised
view-run g (edge_added e) h =
    view_ext _ _ (λ x y. cell-add_edge g e x y h) (λ x t. owns-add_edge g e x t)
view-run g (edge_deleted a b) h =
    view_ext _ _ (λ x y. cell-del_edge g a b x y) (λ x t. unfold del_edge in refl)
view-run g (subnet_added owner s) h =
    view_ext _ _ (λ x y. cell-add_subnet g owner s x y h) (λ x t. owns-add_subnet g owner s x t)
view-run g (subnet_deleted owner s) h =
    view_ext _ _ (λ x y. cell-del_subnet g owner s x y) (λ x t. owns-del_subnet g owner s x t)

-- Whatever edges and subnets are added and deleted, in whatever order, a well-formed graph does what it
-- promises: the edges and owners that it then has are those of the abstract graph after the same changes.
-- An added edge replaces the edge between its nodes in both directions, a deleted one is gone in both; a
-- subnet is owned by the nodes that added it and have not deleted it since.
pub view-run_all :
    (g : Graph) (cs : List Change) → IsWellFormed g → view (run_all g cs) ≡ promised_all (view g) cs
view-run_all g [] h = refl
view-run_all g (c ∷ cs) h =
    view-run_all (run g c) cs (run-IsWellFormed g c h)
    ∙ ap (λ v. promised_all v cs) (view-run g c h)

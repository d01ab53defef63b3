-- ===== src/Graph/Tests.antt =====
-- The theorems on the graph at two graphs: a -- b -- c beside d -- e, and the same with subnets.
use gsnet.Common.{List, [], ◌∷◌, ◌≡◌, ◌↔◌, true, none, some, Text, codes, if◌then◌else◌}
use gsnet.Common.Int.{pos}
use gsnet.Dict.{has}
use gsnet.Graph.{Edge, TextSet, Graph, new, add_edge, reachable, add_subnet}
use gsnet.Graph.Edges.{cell}
use gsnet.Graph.WellFormed.{IsWellFormed, new-IsWellFormed, add_edge-IsWellFormed}
use gsnet.Graph.Removal.{purge, purge_keeps_reachable}
use gsnet.Graph.Refined.{
  Change, edge_added, edge_deleted, subnet_added, run_all, promised_all, view, view-run_all,
}
use gsnet.Graph.Reach.{Walk, reachable_decides}

abbrev a : Text
a = codes "a"

abbrev d : Text
d = codes "d"

abbrev net : Text
net = codes "10.0.0.0/24"

abbrev edge : Text → Text → Edge
edge x y = record { from = x; to = y; weight = pos 3 }

abbrev line : Graph
line = add_edge (add_edge new (edge a (codes "b"))) (edge (codes "b") (codes "c"))

abbrev two_parts : Graph
two_parts = add_edge line (edge d (codes "e"))

two_parts-IsWellFormed : IsWellFormed two_parts
two_parts-IsWellFormed = add_edge-IsWellFormed line (edge d (codes "e")) (
    add_edge-IsWellFormed (add_edge new (edge a (codes "b"))) (edge (codes "b") (codes "c"))
      (add_edge-IsWellFormed new (edge a (codes "b")) new-IsWellFormed))

abbrev with_net : Graph
with_net = add_subnet two_parts d net

reachable_decides_example :
    (t : TextSet) × (reachable two_parts a ≡ some t)
    × ((x : Text) → (has t x ≡ true) ↔ Walk two_parts a x)
reachable_decides_example = reachable_decides two_parts a two_parts-IsWellFormed

purge_keeps_reachable_example :
    (h : Graph) × (t : TextSet) × (purge two_parts a ≡ some h)
    × (reachable two_parts a ≡ some t)
    × IsWellFormed h
    × ((x : Text) → (has t x ≡ true) ↔ Walk two_parts a x)
    × ((x y : Text) → cell h.adj x y ≡ (if has t x then cell two_parts.adj x y else none))
purge_keeps_reachable_example = purge_keeps_reachable two_parts a two_parts-IsWellFormed

abbrev changes : List Change
changes = subnet_added d net ∷ edge_deleted d (codes "e") ∷ edge_added (edge d a) ∷ []

view-run_all_example : view (run_all two_parts changes) ≡ promised_all (view two_parts) changes
view-run_all_example = view-run_all two_parts changes two_parts-IsWellFormed

-- ===== src/Graph.antt =====
-- internal/graph/graph.go: the topology. Strings are compared and never taken apart here. The mutex
-- makes each operation atomic, so each is one function from the graph to the graph.
pub mod Edges
pub mod WellFormed
pub mod Subnets
pub mod Removal
pub mod Owners
pub mod Reach
pub mod Refined
mod Tests
use gsnet.Common.{
  ℕ, zero, suc, Option, none, some, List, [], ◌∷◌, ◌++◌, Bool, true, false, Text, text_eq, length,
  is_some, if◌then◌else◌,
}
use gsnet.Common.Int.{ℤ}
use gsnet.Dict.{Dict, get, has, put, delete, keys, values}

pub record Edge : Type 0 where
  pub from : Text
  pub to : Text
  pub weight : ℤ

-- A `map[string]struct{}`.
abbrev pub TextSet : Type 0
TextSet = Dict (Unit {0})

pub record NodeData : Type 0 where
  pub subnets : TextSet

pub record Graph : Type 0 where
  pub nodes : Dict NodeData
  pub adj : Dict (Dict Edge)

-- `New`
abbrev pub new : Graph
new = record { nodes = []; adj = [] }

-- `ensureNode`; the node's data is read again by the callers that need it.
pub ensure_node : Graph → Text → Graph
ensure_node g name =
    if has g.nodes name
    then g
    else record { nodes = put g.nodes name (record { subnets = [] }); adj = put g.adj name [] }

abbrev pub add_node : Graph → Text → Graph
add_node = ensure_node

pub has_node : Graph → Text → Bool
has_node g name = has g.nodes name

abbrev pub node_names : Graph → List Text
node_names g = keys g.nodes

-- `g.adj[n]`; a missing key reads as the nil map, which has no entries.
abbrev pub neighbours : Dict (Dict Edge) → Text → Dict Edge
neighbours adj n = elim (get adj n) [ none ↦ [] | some m ↦ m ]

-- `g.adj[a][b] = e`. Go panics where `g.adj[a]` is nil: `WellFormed.add_edge-has_rows` shows that
-- `AddEdge` has both rows.
abbrev pub link : Dict (Dict Edge) → Text → Text → Edge → Dict (Dict Edge)
link adj a b e = put adj a (put (neighbours adj a) b e)

abbrev pub reverse_edge : Edge → Edge
reverse_edge e = record { from = e.to; to = e.from; weight = e.weight }

pub add_edge : Graph → Edge → Graph
add_edge g e =
    let h = ensure_node (ensure_node g e.from) e.to in
    record h { adj = link (link h.adj e.from e.to e) e.to e.from (reverse_edge e) }

-- `if m, ok := g.adj[a]; ok { delete(m, b) }`
pub unlink : Dict (Dict Edge) → Text → Text → Dict (Dict Edge)
unlink adj a b = elim (get adj a) [ none ↦ adj | some m ↦ put adj a (delete m b) ]

pub del_edge : Graph → Text → Text → Graph
del_edge g a b = record g { adj = unlink (unlink g.adj a b) b a }

-- `g.adj[a][b]`, if both keys are there.
pub edge_at : Graph → Text → Text → Option Edge
edge_at g a b = get (neighbours g.adj a) b

pub has_edge : Graph → Text → Text → Bool
unfolding edge_at
has_edge g a b = is_some (edge_at g a b)

rows : List (Dict Edge) → List Edge
rows [] = []
rows (m ∷ ms) = values m ++ rows ms

unfoldable pub edges : Graph → List Edge
unfolding rows
edges g = rows (values g.adj)

-- The state of the search in `Reachable`.
pub record Search : Type 0 where
  pub visited : TextSet
  pub queue : List Text

abbrev pub visit : Search → Text → Search
visit s n = record { visited = put s.visited n tt; queue = s.queue ++ n ∷ [] }

-- The inner loop: `for next := range g.adj[n]`.
pub offer : Search → List Text → Search
offer s [] = s
offer s (next ∷ rest) = offer (if has s.visited next then s else visit s next) rest

-- The outer loop. `none` means that the fuel ran out.
pub bfs : ℕ → Dict (Dict Edge) → Search → Option TextSet
bfs zero adj s = elim s.queue [ [] ↦ some s.visited | _ ∷ _ ↦ none ]
bfs (suc fuel) adj s = elim s.queue [
  | [] ↦ some s.visited
  | n ∷ rest ↦ bfs fuel adj (offer (record s { queue = rest }) (keys (neighbours adj n)))
]

-- Each node is queued once, so the number of nodes is fuel enough.
pub reachable : Graph → Text → Option TextSet
unfolding bfs offer
reachable g start =
    if has g.nodes start
    then bfs (length g.nodes) g.adj (record { visited = put [] start tt; queue = start ∷ [] })
    else some []

pub add_subnet : Graph → Text → Text → Graph
add_subnet g owner subnet =
    let h = ensure_node g owner in
    elim (get h.nodes owner) [
      | none ↦ h
      | some n ↦ record h {
        nodes = put h.nodes owner (record { subnets = put n.subnets subnet tt });
      }
    ]

pub del_subnet : Graph → Text → Text → Graph
del_subnet g owner subnet = elim (get g.nodes owner) [
  | none ↦ g
  | some n ↦ record g { nodes = put g.nodes owner (record { subnets = delete n.subnets subnet }) }
]

pub node_subnets : Graph → Text → List Text
node_subnets g name = elim (get g.nodes name) [ none ↦ [] | some n ↦ keys n.subnets ]

owner_in : Dict NodeData → Text → Option Text
owner_in [] subnet = none
owner_in ((name, n) ∷ rest) subnet =
    if has n.subnets subnet then some name else owner_in rest subnet

pub subnet_owner : Graph → Text → Option Text
unfolding owner_in
subnet_owner g subnet = owner_in g.nodes subnet

-- `out[s] = name` for each subnet of one node, then for all nodes.
claim_subnets : Dict Text → Text → List Text → Dict Text
claim_subnets out name [] = out
claim_subnets out name (s ∷ ss) = claim_subnets (put out s name) name ss

collect_subnets : Dict Text → Dict NodeData → Dict Text
unfolding claim_subnets
collect_subnets out [] = out
collect_subnets out ((name, n) ∷ rest) =
    collect_subnets (claim_subnets out name (keys n.subnets)) rest

unfoldable pub all_subnets : Graph → Dict Text
unfolding collect_subnets
all_subnets g = collect_subnets [] g.nodes

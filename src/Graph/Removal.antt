-- ===== src/Graph/Removal.antt =====
-- The loops that clear edges: the one over `Edges()` that drops all edges of one node
-- (internal/gossip/plane.go, `apply` on del_node), and the purge of what is not reachable
-- (internal/daemon/daemon.go, `controlHandler` on ReqPurge).
use mathlib.Core.List.{Memᴰ}
use mathlib.Core.List.Memᴰ
use gsnet.Common.{
  ◌↔◌, ◌≡◌, refl, Option, none, some, List, [], ◌∷◌, ◌&&◌, ◌||◌, not, Bool, true, false, Text,
  text_eq, text_eq_iff, text_eq_refl, is_some, if◌then◌else◌, arith, inl, inr, Bool-cases,
  Option-cases,
}
use gsnet.Dict.{Dict, contains, get, has, values}
use gsnet.Dict.Laws.{contains-keys}
use gsnet.Dict.Entries.{mem-values}
use gsnet.Graph.{Graph, Edge, TextSet, edges, rows, del_edge, reachable, node_names}
use gsnet.Graph.Edges.{cell}
use gsnet.Graph.WellFormed.{IsWellFormed, cell-del_edge, del_edge-IsWellFormed}
use gsnet.Graph.Reach.{Walk, step, reachable_decides}

-- `for _, e := range es { if e.From == n || e.To == n { g.DelEdge(e.From, e.To) } }`
pub del_incident : Graph → Text → List Edge → Graph
del_incident g n [] = g
del_incident g n (e ∷ es) =
    del_incident (if text_eq e.from n || text_eq e.to n then del_edge g e.from e.to else g) n es

-- `for _, n := range names`, where `reach` is the set that `Reachable` returned.
purge_nodes : TextSet → Graph → List Text → Graph
purge_nodes reach g [] = g
purge_nodes reach g (n ∷ ns) =
    purge_nodes reach (if has reach n then g else del_incident g n (edges g)) ns

-- The case ReqPurge, for the node `self`.
pub purge : Graph → Text → Option Graph
unfolding purge_nodes
purge g self = elim (reachable g self) [
  | none ↦ none
  | some reach ↦ some (purge_nodes reach g (node_names g))
]

joins : Edge → Text → Text → Bool
joins e x y = text_eq e.from x && text_eq e.to y || text_eq e.to x && text_eq e.from y

mentions : List Edge → Text → Text → Bool
mentions [] x y = false
mentions (e ∷ es) x y = joins e x y || mentions es x y

cell-del_incident :
    (es : List Edge) (g : Graph) (n x y : Text)
    → cell (del_incident g n es).adj x y
      ≡ (if (text_eq x n || text_eq y n) && mentions es x y then none else cell g.adj x y)
unfolding del_incident mentions joins
cell-del_incident [] g n x y = ground arith
cell-del_incident (e ∷ es) g n x y = ground (
  arith,
  cell-del_incident es (if text_eq e.from n || text_eq e.to n then del_edge g e.from e.to else g) n
      x y,
  cell-del_edge g e.from e.to x y,
  text_eq_iff e.from x,
  text_eq_iff e.from y,
  text_eq_iff e.to x,
  text_eq_iff e.to y,
)

mem-rows :
    (ms : List (Dict Edge)) {m : Dict Edge} {e : Edge}
    → Memᴰ m ms
    → Memᴰ e (values m)
    → Memᴰ e (rows ms)
unfolding rows
mem-rows [] p q = absurd (Memᴰ.not-nil p)
mem-rows (k ∷ ms) {m} {e} p q = elim (Memᴰ.cases_cons p) [
  | inl same ↦ Memᴰ.append_left (rows ms) (rw same at q)
  | inr later ↦ Memᴰ.append_right (values k) (mem-rows ms later q)
]

mem-mentions : (es : List Edge) {e : Edge} → Memᴰ e es → mentions es e.from e.to ≡ true
unfolding mentions joins
mem-mentions [] p = absurd (Memᴰ.not-nil p)
mem-mentions (d ∷ es) {e} p = elim (Memᴰ.cases_cons p) [
  | inl same ↦ ground (arith, text_eq_refl d.from, text_eq_refl d.to)
  | inr later ↦ ground (arith, mem-mentions es later)
]

-- Every stored edge is listed.
edges_complete :
    (g : Graph) (x y : Text)
    → IsWellFormed g
    → is_some (cell g.adj x y) ≡ true
    → mentions (edges g) x y ≡ true
unfolding edges get
edges_complete g x y w h = elim (Option-cases (get g.adj x)) [
  | inl e ↦ ground (arith, e)
  | inr (m, e) ↦ elim (Option-cases (get m y)) [
    | inl f ↦ ground (arith, e, f)
    | inr (d, f) ↦
        let listed =
          mem-mentions (rows (values g.adj))
            (mem-rows (values g.adj) (mem-values g.adj x e) (mem-values m y f)) in
        ground (arith, listed, w.named x y, e, f)
  ]
]

-- Dropping all edges of a node clears its row and its column, and nothing else.
pub cell-del_incident_all :
    (g : Graph) (n x y : Text)
    → IsWellFormed g
    → cell (del_incident g n (edges g)).adj x y
      ≡ (if text_eq x n || text_eq y n then none else cell g.adj x y)
cell-del_incident_all g n x y w =
    ground (arith, cell-del_incident (edges g) g n x y, edges_complete g x y w)

pub del_incident-IsWellFormed :
    (es : List Edge) (g : Graph) (n : Text) → IsWellFormed g → IsWellFormed (del_incident g n es)
unfolding del_incident
del_incident-IsWellFormed [] g n w = w
del_incident-IsWellFormed (e ∷ es) g n w = elim (Bool-cases (text_eq e.from n || text_eq e.to n)) [
  | inl hit ↦ rw hit (
      del_incident-IsWellFormed es (del_edge g e.from e.to) n
        (del_edge-IsWellFormed g e.from e.to w))
  | inr miss ↦ rw miss (del_incident-IsWellFormed es g n w)
]

pub nodes-del_incident :
    (es : List Edge) (g : Graph) (n : Text) → (del_incident g n es).nodes ≡ g.nodes
unfolding del_incident del_edge
nodes-del_incident [] g n = refl
nodes-del_incident (e ∷ es) g n = elim (Bool-cases (text_eq e.from n || text_eq e.to n)) [
  | inl hit ↦ rw (hit, del_incident) (nodes-del_incident es (del_edge g e.from e.to) n)
  | inr miss ↦ rw (miss, del_incident) (nodes-del_incident es g n)
]

purge_nodes-IsWellFormed :
    (t : TextSet) (ns : List Text) (g : Graph) → IsWellFormed g → IsWellFormed (purge_nodes t g ns)
unfolding purge_nodes
purge_nodes-IsWellFormed t [] g w = w
purge_nodes-IsWellFormed t (n ∷ ns) g w = elim (Bool-cases (has t n)) [
  | inl hit ↦ rw hit (purge_nodes-IsWellFormed t ns g w)
  | inr miss ↦ rw miss (
      purge_nodes-IsWellFormed t ns (del_incident g n (edges g))
        (del_incident-IsWellFormed (edges g) g n w))
]

abbrev lost : TextSet → List Text → Text → Bool
lost t ns x = contains x ns && not (has t x)

cell-purge_nodes :
    (t : TextSet) (ns : List Text) (g : Graph) (x y : Text)
    → IsWellFormed g
    → cell (purge_nodes t g ns).adj x y
      ≡ (if lost t ns x || lost t ns y then none else cell g.adj x y)
unfolding purge_nodes contains
cell-purge_nodes t [] g x y w = refl
cell-purge_nodes t (n ∷ ns) g x y w = elim (Bool-cases (has t n)) [
  | inl hit ↦ ground (arith, hit, cell-purge_nodes t ns g x y w, text_eq_iff n x, text_eq_iff n y)
  | inr miss ↦ ground (
    arith,
    miss,
    cell-purge_nodes t ns (del_incident g n (edges g)) x y
        (del_incident-IsWellFormed (edges g) g n w),
    cell-del_incident_all g n x y w,
    text_eq_iff n x,
    text_eq_iff n y,
    text_eq_iff x n,
    text_eq_iff y n,
  )
]

-- In a well-formed graph the purge returns a well-formed graph. It keeps the edges of the nodes that a
-- walk from `self` reaches, which are those in the set that `Reachable` finds, and drops all edges of
-- every other node.
pub purge_keeps_reachable :
    (g : Graph) (self : Text)
    → IsWellFormed g
    → (h : Graph) × (t : TextSet) × (purge g self ≡ some h)
      × (reachable g self ≡ some t)
      × IsWellFormed h
      × ((x : Text) → (has t x ≡ true) ↔ Walk g self x)
      × ((x y : Text) → cell h.adj x y ≡ (if has t x then cell g.adj x y else none))
unfolding purge get
purge_keeps_reachable g self w =
    let (t, found, iff) = reachable_decides g self w in
    (
      purge_nodes t g (node_names g),
      t,
      rw (found, purge),
      found,
      purge_nodes-IsWellFormed t (node_names g) g w,
      iff,
      λ x y. elim (Bool-cases (has t x)) [
        | inl e ↦ elim (Bool-cases (is_some (cell g.adj x y))) [
          | inl there ↦ ground (
            arith,
            cell-purge_nodes t (node_names g) g x y w,
            (iff y).1 (step ((iff x).0 e) there),
          )
          | inr gone ↦ ground (arith, cell-purge_nodes t (node_names g) g x y w)
        ]
        | inr e ↦
            ground (
              arith,
              cell-purge_nodes t (node_names g) g x y w,
              contains-keys g.nodes x,
              w.aligned x,
            )
      ],
    )

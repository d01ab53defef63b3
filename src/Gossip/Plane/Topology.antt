-- ===== src/Gossip/Plane/Topology.antt =====
-- What applying an envelope does to the graph and to what is known of a node.
use gsnet.Common.{
  ◌≡◌, ◌≢◌, List, [], ◌∷◌, ◌||◌, Option, none, some, Text, text_eq, text_eq_iff, codes, arith,
  if◌then◌else◌, inl, inr, Bool-cases,
}
use gsnet.Common.Int.{ℤ}
use gsnet.Dict.{get, put}
use gsnet.Dict.Laws.{get-delete}
use gsnet.Graph
use gsnet.Graph.{Graph, Edge}
use gsnet.Graph.Edges.{cell}
use gsnet.Graph.WellFormed.{
  IsWellFormed, ensure_node-IsWellFormed, add_edge-IsWellFormed, del_edge-IsWellFormed,
}
use gsnet.Graph.Subnets.{add_subnet-IsWellFormed, del_subnet-IsWellFormed}
use gsnet.Graph.Removal.{del_incident-IsWellFormed, cell-del_incident_all}
use gsnet.Gossip.Message.{
  Bytes, Kind, kind_of, Envelope, Hello, AddEdge, DelEdge, AddSubnet, DelSubnet,
}
use gsnet.Gossip.Outside.{Outside}
use gsnet.Gossip.Plane.{
  apply_add_node, apply_del_node, apply_add_edge, apply_del_edge, apply_add_subnet,
  apply_del_subnet, tell, Plane, claim, apply_kind, apply, receive, originate, minted, hello_id,
  subnet_id, apply_and_broadcast, announce_hello, announce_add_subnet,
}
use gsnet.Gossip.Plane.Claims.{accepts, receive_all, receive_accepted, receive_dropped, g-claim}

module _ (w : Outside) where
  abbrev Fits : Option Plane → Type 0
  Fits none = Unit
  Fits (some q) = IsWellFormed q.g

  add_node-Fits : (p : Plane) (o : Option Hello) → IsWellFormed p.g → Fits (apply_add_node w p o)
  unfolding apply_add_node
  add_node-Fits p none h = tt
  add_node-Fits p (some v) h = ensure_node-IsWellFormed p.g v.name h

  del_node-Fits : (p : Plane) (o : Option Hello) → IsWellFormed p.g → Fits (apply_del_node w p o)
  unfolding apply_del_node
  del_node-Fits p none h = tt
  del_node-Fits p (some v) h = elim (Bool-cases (text_eq v.name [])) [
    | inl e ↦ rw (e, apply_del_node) tt
    | inr e ↦ rw (e, apply_del_node) (del_incident-IsWellFormed (Graph.edges p.g) p.g v.name h)
  ]

  add_edge-Fits : (p : Plane) (o : Option AddEdge) → IsWellFormed p.g → Fits (apply_add_edge w p o)
  unfolding apply_add_edge
  add_edge-Fits p none h = tt
  add_edge-Fits p (some e) h = add_edge-IsWellFormed p.g _ h

  del_edge-Fits : (p : Plane) (o : Option DelEdge) → IsWellFormed p.g → Fits (apply_del_edge w p o)
  unfolding apply_del_edge
  del_edge-Fits p none h = tt
  del_edge-Fits p (some e) h = del_edge-IsWellFormed p.g e.from e.to h

  add_subnet-Fits :
      (p : Plane) (o : Option AddSubnet) → IsWellFormed p.g → Fits (apply_add_subnet w p o)
  unfolding apply_add_subnet
  add_subnet-Fits p none h = tt
  add_subnet-Fits p (some s) h = add_subnet-IsWellFormed p.g s.owner s.subnet h

  del_subnet-Fits :
      (p : Plane) (o : Option DelSubnet) → IsWellFormed p.g → Fits (apply_del_subnet w p o)
  unfolding apply_del_subnet
  del_subnet-Fits p none h = tt
  del_subnet-Fits p (some s) h = del_subnet-IsWellFormed p.g s.owner s.subnet h

  apply_kind-Fits :
      (p : Plane) (k : Kind) (b : Bytes) → IsWellFormed p.g → Fits (apply_kind w p k b)
  unfolding apply_kind
  apply_kind-Fits p Kind.add_node b h = add_node-Fits p (w.unmarshal_hello b) h
  apply_kind-Fits p Kind.del_node b h = del_node-Fits p (w.unmarshal_hello b) h
  apply_kind-Fits p Kind.add_edge b h = add_edge-Fits p (w.unmarshal_add_edge b) h
  apply_kind-Fits p Kind.del_edge b h = del_edge-Fits p (w.unmarshal_del_edge b) h
  apply_kind-Fits p Kind.add_subnet b h = add_subnet-Fits p (w.unmarshal_add_subnet b) h
  apply_kind-Fits p Kind.del_subnet b h = del_subnet-Fits p (w.unmarshal_del_subnet b) h
  apply_kind-Fits p _ b h = h

  tell-Fits :
      (env : Envelope) (p : Plane) (o : Option Plane)
      → IsWellFormed p.g
      → Fits o
      → IsWellFormed (tell w env p o).0.g
  unfolding tell
  tell-Fits env p none h f = h
  tell-Fits env p (some q) h f = f

  pub apply-IsWellFormed :
      (p : Plane) (env : Envelope) → IsWellFormed p.g → IsWellFormed (apply w p env).0.g
  unfolding apply
  apply-IsWellFormed p env h =
      tell-Fits env p (apply_kind w p (kind_of env.kind) env.payload) h
        (apply_kind-Fits p (kind_of env.kind) env.payload h)

  pub receive-IsWellFormed :
      (p : Plane) (env : Envelope) → IsWellFormed p.g → IsWellFormed (receive w p env).0.g
  receive-IsWellFormed p env h = elim (Bool-cases (accepts w p env)) [
    | inl took ↦
        rw (receive_accepted w p env took).0
          (apply-IsWellFormed (claim p env.id env.ts).0 env (rw (g-claim p env.id env.ts) h))
    | inr left ↦ rw (receive_dropped w p env left).0 h
  ]

  originate-IsWellFormed :
      (p : Plane) (now : ℤ) (id kind : Text) (body : Option Bytes)
      → IsWellFormed p.g
      → IsWellFormed (originate w p now id kind body).0.g
  unfolding originate
  originate-IsWellFormed p now id kind none h = h
  originate-IsWellFormed p now id kind (some body) h =
      unfold apply_and_broadcast in
      apply-IsWellFormed (record p { outbox = _; seen = put p.seen id now })
        (minted w p now id kind body) h

  -- What the node announces of itself keeps the graph well formed.
  pub announce_hello-IsWellFormed :
      (p : Plane) (now : ℤ) (v : Hello)
      → IsWellFormed p.g
      → IsWellFormed (announce_hello w p now v).0.g
  unfolding announce_hello
  announce_hello-IsWellFormed p now v h =
      originate-IsWellFormed p now (hello_id p) (codes "add_node") (w.marshal_hello v) h

  pub announce_add_subnet-IsWellFormed :
      (p : Plane) (now : ℤ) (subnet : Text)
      → IsWellFormed p.g
      → IsWellFormed (announce_add_subnet w p now subnet).0.g
  unfolding announce_add_subnet
  announce_add_subnet-IsWellFormed p now subnet h =
      originate-IsWellFormed p now (subnet_id p subnet) (codes "add_subnet")
        (w.marshal_add_subnet (record { owner = p.node_name; subnet = subnet })) h

  -- Whatever envelopes arrive, well-formed or not, signed or not, the graph stays well formed: both
  -- halves of every edge are stored under their names, between nodes that exist.
  pub receive_all-IsWellFormed :
      (envs : List Envelope) (p : Plane)
      → IsWellFormed p.g
      → IsWellFormed (receive_all w p envs).0.g
  unfolding receive_all
  receive_all-IsWellFormed [] p h = h
  receive_all-IsWellFormed (env ∷ envs) p h =
      receive_all-IsWellFormed envs (receive w p env).0 (receive-IsWellFormed p env h)

  -- An applied del_node for node n leaves no edge at n and every other edge, and forgets the
  -- endpoint, the two addresses and the key of n and of no other node.
  pub apply_del_node_clears :
      (p : Plane) (env : Envelope) (h : Hello)
      → IsWellFormed p.g
      → kind_of env.kind ≡ Kind.del_node
      → w.unmarshal_hello env.payload ≡ some h
      → h.name ≢ []
      → (x y : Text)
      → let q = (apply w p env).0 in
        (cell q.g.adj x y
          ≡ (if text_eq x h.name || text_eq y h.name then none else cell p.g.adj x y))
        × (get q.endpoints x ≡ (if text_eq h.name x then none else get p.endpoints x))
        × (get q.inners x ≡ (if text_eq h.name x then none else get p.inners x))
        × (get q.underlays x ≡ (if text_eq h.name x then none else get p.underlays x))
        × (get q.pub_keys x ≡ (if text_eq h.name x then none else get p.pub_keys x))
  unfolding apply
  apply_del_node_clears p env h wf k u ne x y = ground (
    arith,
    text_eq_iff h.name [],
    cell-del_incident_all p.g h.name x y wf,
    get-delete p.endpoints h.name x,
    get-delete p.inners h.name x,
    get-delete p.underlays h.name x,
    get-delete p.pub_keys h.name x,
  )

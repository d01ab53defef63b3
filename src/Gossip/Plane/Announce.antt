-- ===== src/Gossip/Plane/Announce.antt =====
-- Facts that this node announces: the outbox, and what a peer makes of the envelope.
use gsnet.Common.{
  ◌≡◌, refl, ap, ◌∙◌, List, [], ◌∷◌, ◌++◌, true, false, Option, some, Text, text_eq, text_eq_refl,
  arith, if◌then◌else◌, length, codes, ◌+◌,
}
use gsnet.Common.Int.{ℤ}
use gsnet.Dict.{get, put, has}
use gsnet.Dict.Laws.{get-put, length-put}
use gsnet.Graph
use gsnet.Graph.{Graph}
use gsnet.Gossip.Message.{Bytes, Kind, kind_of, Envelope, signing_bytes, Hello, AddEdge}
use gsnet.Gossip.Outside.{Outside, IsJson, KeyPair}
use gsnet.Gossip.Plane.{
  verify_with, check_key, choose_key, key_verify, Plane, Step, Event, broadcast, sent,
  apply_and_broadcast, claim, apply, receive, originate, minted, verify, edge_id, hello_id,
  announce_add_edge, announce_del_edge, announce_hello, public_key_size,
}
use gsnet.Gossip.Plane.Claims.{known, g-claim, receive_accepted}
use gsnet.Gossip.Plane.Shape.{apply-SameBook}

module _ (w : Outside) where
  -- The state in which `originate` calls `apply`.
  stored : Plane → Envelope → Plane
  stored p env = record p { outbox = put p.outbox env.id env; seen = put p.seen env.id env.ts }

  originate_lem :
      (p : Plane) (now : ℤ) (id kind : Text) (body : Bytes)
      → let env = minted w p now id kind body in
        ((originate w p now id kind (some body)).0 ≡ (apply w (stored p env) env).0)
        × ((originate w p now id kind (some body)).1
            ≡ (apply w (stored p env) env).1 ++ broadcast env ∷ [])
        × ((originate w p now id kind (some body)).2 ≡ sent (w.broadcast_ok env))
  unfolding originate apply_and_broadcast minted stored
  originate_lem p now id kind body = (refl, refl, refl)

  node_name-originate :
      (p : Plane) (now : ℤ) (id kind : Text) (body : Bytes)
      → (originate w p now id kind (some body)).0.node_name ≡ p.node_name
  node_name-originate p now id kind body =
      let env = minted w p now id kind body in
      let same = apply-SameBook w (stored p env) env in
      rw ((originate_lem p now id kind body).0, same.node_name) (unfold stored in refl)

  -- After a fact is originated the outbox holds its envelope under its ID and what it held under
  -- every other; its size grows exactly if the ID is new, so a new version replaces the old one.
  pub outbox-originate :
      (p : Plane) (now : ℤ) (id kind : Text) (body : Bytes) (j : Text)
      → let q = (originate w p now id kind (some body)).0 in
        (get q.outbox j
          ≡ (if text_eq id j then some (minted w p now id kind body) else get p.outbox j))
        × (length q.outbox ≡ (if has p.outbox id then length p.outbox else length p.outbox + 1))
  unfolding stored minted
  outbox-originate p now id kind body j =
      let env = minted w p now id kind body in
      let same = apply-SameBook w (stored p env) env in
      rw ((originate_lem p now id kind body).0, same.outbox)
        (get-put p.outbox id env j, length-put p.outbox id env)

  -- Two versions of one fact: the second takes the first one's place.
  outbox-originate_twice :
      (p : Plane) (t u : ℤ) (id k k' : Text) (b b' : Bytes)
      → let q = (originate w p t id k (some b)).0 in
        let r = (originate w q u id k' (some b')).0 in
        (get r.outbox id ≡ some (minted w q u id k' b')) × (length r.outbox ≡ length q.outbox)
  outbox-originate_twice p t u id k k' b b' =
      let q = (originate w p t id k (some b)).0 in
      let there = outbox-originate p t id k b id in
      let then' = outbox-originate q u id k' b' id in ground (arith, there, then', text_eq_refl id)

  announce_add_edge_lem :
      (p : Plane) (t : ℤ) (to : Text) (weight : ℤ) {b : Bytes}
      → w.marshal_add_edge (record { from = p.node_name; to = to; weight = weight }) ≡ some b
      → announce_add_edge w p t to weight
        ≡ originate w p t (edge_id p to) (codes "add_edge") (some b)
  unfolding announce_add_edge
  announce_add_edge_lem p t to weight a = ap (originate w p t (edge_id p to) (codes "add_edge")) a

  announce_del_edge_lem :
      (q p : Plane) (t : ℤ) (to : Text) {b : Bytes}
      → q.node_name ≡ p.node_name
      → w.marshal_del_edge (record { from = p.node_name; to = to }) ≡ some b
      → announce_del_edge w q t to ≡ originate w q t (edge_id p to) (codes "del_edge") (some b)
  unfolding announce_del_edge
  announce_del_edge_lem q p t to {b} e a =
      ap
        (λ n.
          originate w q t (n ++ (codes "/edge/" ++ to)) (codes "del_edge")
            (w.marshal_del_edge (record { from = n; to = to })))
        e
      ∙ ap (originate w q t (edge_id p to) (codes "del_edge")) a

  announce_hello_lem :
      (q p : Plane) (t : ℤ) (h : Hello) {b : Bytes}
      → q.node_name ≡ p.node_name
      → w.marshal_hello h ≡ some b
      → announce_hello w q t h ≡ originate w q t (hello_id p) (codes "add_node") (some b)
  unfolding announce_hello
  announce_hello_lem q p t h {b} e a =
      ap (λ n. originate w q t (n ++ codes "/hello") (codes "add_node") (w.marshal_hello h)) e
      ∙ ap (originate w q t (hello_id p) (codes "add_node")) a

  -- `AnnounceDelEdge` takes the place of the `AnnounceAddEdge` for the same node in the outbox: the
  -- entry is the deletion, and the outbox is no longer than it was.
  pub outbox-announce_del_edge :
      (p : Plane) (t u : ℤ) (to : Text) (weight : ℤ) {added dropped : Bytes}
      → w.marshal_add_edge (record { from = p.node_name; to = to; weight = weight }) ≡ some added
      → w.marshal_del_edge (record { from = p.node_name; to = to }) ≡ some dropped
      → let q = (announce_add_edge w p t to weight).0 in
        let r = (announce_del_edge w q u to).0 in
        (get r.outbox (edge_id p to)
          ≡ some (minted w q u (edge_id p to) (codes "del_edge") dropped))
        × (length r.outbox ≡ length q.outbox)
  outbox-announce_del_edge p t u to weight {added} {dropped} a d =
      let q = (originate w p t (edge_id p to) (codes "add_edge") (some added)).0 in
      rw
        (
          announce_add_edge_lem p t to weight a,
          announce_del_edge_lem q p u to
              (node_name-originate p t (edge_id p to) (codes "add_edge") added) d,
        )
        (outbox-originate_twice p t u (edge_id p to) (codes "add_edge") (codes "del_edge") added
          dropped)

  -- A second Hello, of whatever node, takes the place of the first in the outbox, so the heartbeat no
  -- longer sends the first.
  pub outbox-announce_hello :
      (p : Plane) (t u : ℤ) (own other : Hello) {first second : Bytes}
      → w.marshal_hello own ≡ some first
      → w.marshal_hello other ≡ some second
      → let q = (announce_hello w p t own).0 in
        let r = (announce_hello w q u other).0 in
        (get r.outbox (hello_id p) ≡ some (minted w q u (hello_id p) (codes "add_node") second))
        × (length r.outbox ≡ length q.outbox)
  outbox-announce_hello p t u own other {first} {second} a b =
      let q = (originate w p t (hello_id p) (codes "add_node") (some first)).0 in
      rw
        (
          announce_hello_lem p p t own refl a,
          announce_hello_lem q p u other
              (node_name-originate p t (hello_id p) (codes "add_node") first) b,
        )
        (outbox-originate_twice p t u (hello_id p) (codes "add_node") (codes "add_node") first
          second)

  pub g-apply_add_edge :
      (p : Plane) (env : Envelope) (e : AddEdge)
      → kind_of env.kind ≡ Kind.add_edge
      → w.unmarshal_add_edge env.payload ≡ some e
      → (apply w p env).0.g
        ≡ Graph.add_edge p.g (record { from = e.from; to = e.to; weight = e.weight })
  unfolding apply
  g-apply_add_edge p env e k u = ground arith

  verify_lookup :
      (q : Plane) (env : Envelope) (f : Text → Option Bytes) (key : Bytes)
      → q.pub_key_for ≡ some f
      → f env.origin ≡ some key
      → length key ≡ public_key_size
      → w.ed_verify key (signing_bytes env) env.signature ≡ true
      → verify w q env ≡ true
  unfolding verify verify_with check_key choose_key key_verify
  verify_lookup q env f [] look k size good = absurd (omega arith)
  verify_lookup q env f (b ∷ bs) look k size good = ground arith

  minted-signature :
      (p : Plane) (now : ℤ) (id kind : Text) (body private public : Bytes)
      → p.ed_priv ≡ some private
      → KeyPair w private public
      → let env = minted w p now id kind body in
        w.ed_verify public (signing_bytes env) env.signature ≡ true
  unfolding minted signing_bytes
  minted-signature p now id kind body private public k pair = rw (k, minted) (pair _)

  -- A node p announces an edge to another node: the last thing the announcement does is to broadcast an
  -- envelope, with the reply of that broadcast. A peer q that looks up the public half of p's key and has
  -- not seen this version of the edge receives that envelope: both graphs then hold the edge from p to that
  -- node with the weight, in both directions.
  pub announced_edge_arrives :
      (json : IsJson w) (p q : Plane) (now : ℤ) (to : Text) (weight : ℤ)
      (body private public : Bytes) (f : Text → Option Bytes)
      → w.marshal_add_edge (record { from = p.node_name; to = to; weight = weight }) ≡ some body
      → p.ed_priv ≡ some private
      → KeyPair w private public
      → length public ≡ public_key_size
      → q.pub_key_for ≡ some f
      → f p.node_name ≡ some public
      → known q (edge_id p to) now ≡ false
      → let edge : Graph.Edge = record { from = p.node_name; to = to; weight = weight } in
        let (p', events, reply) = announce_add_edge w p now to weight in
        (env : Envelope) × (before : List Event) × (events ≡ before ++ broadcast env ∷ [])
        × (reply ≡ sent (w.broadcast_ok env))
        × (p'.g ≡ Graph.add_edge p.g edge)
        × ((receive w q env).0.g ≡ Graph.add_edge q.g edge)
  unfolding kind_of minted
  announced_edge_arrives json p q now to weight body private public f m k pair size look key new =
      let env = minted w p now (edge_id p to) (codes "add_edge") body in
      let e : AddEdge = record { from = p.node_name; to = to; weight = weight } in
      let good =
        minted-signature p now (edge_id p to) (codes "add_edge") body private public k pair in
      let heard = verify_lookup q env f public look key size good in
      let originated = originate_lem p now (edge_id p to) (codes "add_edge") body in
      (
        env,
        (apply w (stored p env) env).1,
        ap (λ (s : Step). s.1) (announce_add_edge_lem p now to weight m) ∙ originated.1,
        ap (λ (s : Step). s.2) (announce_add_edge_lem p now to weight m) ∙ originated.2,
        rw (announce_add_edge_lem p now to weight m, originated.0)
            (unfold stored in g-apply_add_edge (stored p env) env e refl (json.add_edge e m)),
        ap (λ r. r.g) (receive_accepted w q env (ground (arith, heard, new))).0
            ∙ g-apply_add_edge (claim q env.id env.ts).0 env e refl (json.add_edge e m)
            ∙ ap (λ g. Graph.add_edge g (record { from = p.node_name; to = to; weight = weight }))
                (g-claim q env.id env.ts),
      )

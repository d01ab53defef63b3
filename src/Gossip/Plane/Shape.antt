-- ===== src/Gossip/Plane/Shape.antt =====
-- What `apply` leaves alone: everything but the graph and what Hello messages teach.
use gsnet.Common.{◌≡◌, Option, none, some, arith}
use gsnet.Gossip.Message.{Bytes, Kind, kind_of, Envelope}
use gsnet.Gossip.Outside.{Outside}
use gsnet.Gossip.Plane.{Plane, apply_kind, apply}

pub record SameBook (p q : Plane) : Type 0 where
  pub seen : q.seen ≡ p.seen
  pub outbox : q.outbox ≡ p.outbox
  pub node_name : q.node_name ≡ p.node_name
  pub listening : q.listening ≡ p.listening
  pub ed_priv : q.ed_priv ≡ p.ed_priv
  pub pub_key_for : q.pub_key_for ≡ p.pub_key_for

module _ (w : Outside) where
  abbrev Keeps : Plane → Option Plane → Type 0
  Keeps p none = Unit
  Keeps p (some q) = SameBook p q

  apply_kind-SameBook : (p : Plane) (k : Kind) (b : Bytes) → Keeps p (apply_kind w p k b)
  unfolding apply_kind
  apply_kind-SameBook p Kind.add_node b = ground arith
  apply_kind-SameBook p _ b = ground arith

  pub apply-SameBook : (p : Plane) (env : Envelope) → SameBook p (apply w p env).0
  unfolding apply
  apply-SameBook p env = ground (arith, apply_kind-SameBook p (kind_of env.kind) env.payload)

-- ===== src/Gossip/Plane/Interleaving.antt =====
-- `Receive` on several connections at once. A call takes three steps: it verifies, it claims the ID
-- under the mutex, and later it applies and broadcasts. `flying` holds the envelopes that have been
-- claimed and not yet applied.
use gsnet.Common.{
  ℕ, ◌+◌, ◌≤◌, ◌≡◌, refl, List, [], ◌∷◌, ◌++◌, ◌&&◌, true, false, some, Text, text_eq, text_eq_iff,
  text_eq_refl, arith, if◌then◌else◌, is_some,
}
use gsnet.Common.Int.{ℤ, int_eq}
use gsnet.Graph.Edges.{cell}
use gsnet.Graph.WellFormed.{IsWellFormed, cell-add_edge}
use gsnet.Gossip.Message.{Kind, kind_of, Envelope, AddEdge, DelEdge}
use gsnet.Gossip.Outside.{Outside}
use gsnet.Gossip.Plane.{leb_ℤ, Plane, Event, broadcast, claim, apply, verify}
use gsnet.Gossip.Plane.Claims.{
  known, known_newer, leb_ℤ_refl, known-claim, copies, copies-append, copies-apply, int_eq_leb,
  int_eq_eq, g-claim,
}
use gsnet.Gossip.Plane.Topology.{apply-IsWellFormed}
use gsnet.Gossip.Plane.Announce.{g-apply_add_edge}
use gsnet.Gossip.Plane.Shape.{apply-SameBook}

pub record Net : Type 0 where
  pub plane : Plane
  pub flying : List Envelope
  pub events : List Event

module _ (w : Outside) where
  -- `checked` is the plane as it was when the envelope was verified.
  pub data Turn (s : Net) : Net → Type 0 where
    enter :
        (checked : Plane) (env : Envelope)
        → verify w checked env ≡ true
        → known s.plane env.id env.ts ≡ false
        → Turn s (record s { plane = (claim s.plane env.id env.ts).0; flying = env ∷ s.flying })
    finish :
        (before after : List Envelope) (env : Envelope)
        → s.flying ≡ before ++ (env ∷ after)
        → Turn s (record {
          plane = (apply w s.plane env).0;
          flying = before ++ after;
          events = s.events ++ ((apply w s.plane env).1 ++ broadcast env ∷ []);
        })

  pub data Runs (s : Net) : Net → Type 0 where
    stay : Runs s s
    turn : {t u : Net} → Runs s t → Turn t u → Runs s u

  abbrev pub idle : Plane → Net
  idle p = record { plane = p; flying = []; events = [] }

  versions : Text → ℤ → List Envelope → ℕ
  versions id ts [] = 0
  versions id ts (e ∷ es) = (if text_eq e.id id && int_eq e.ts ts then 1 else 0) + versions id ts es

  versions-append :
      (id : Text) (ts : ℤ) (xs ys : List Envelope)
      → versions id ts (xs ++ ys) ≡ versions id ts xs + versions id ts ys
  unfolding versions
  versions-append id ts [] ys = omega arith
  versions-append id ts (e ∷ xs) ys = omega (arith, versions-append id ts xs ys)

  abbrev Bounded : Text → ℤ → Net → Type 0
  Bounded id ts s =
      copies id ts s.events + versions id ts s.flying ≤ (if known s.plane id ts then 1 else 0)

  Turn-Bounded : (id : Text) (ts : ℤ) {s t : Net} → Turn s t → Bounded id ts s → Bounded id ts t
  unfolding versions
  Turn-Bounded id ts {s} (enter checked env v new) b = ground (
    arith,
    known-claim s.plane env.id env.ts id ts,
    text_eq_iff env.id id,
    int_eq_leb env.ts ts,
    int_eq_eq env.ts ts,
  )
  Turn-Bounded id ts {s} (finish before after env e) b =
      rw
        (
          copies-append,
          copies-append,
          copies-apply w s.plane env id ts,
          versions-append,
          (apply-SameBook w s.plane env).seen,
        )
        (unfold copies in omega (arith, rw (e, versions-append) at b))

  Runs-Bounded : (id : Text) (ts : ℤ) {p : Plane} {t : Net} → Runs (idle p) t → Bounded id ts t
  unfolding copies versions
  Runs-Bounded id ts stay = ground arith
  Runs-Bounded id ts (turn r st) = Turn-Bounded id ts st (Runs-Bounded id ts r)

  -- However the calls of `Receive` interleave, from an idle plane on each version of a fact is
  -- broadcast at most once.
  pub Runs-broadcast_once :
      (id : Text) (ts : ℤ) {p : Plane} {t : Net} → Runs (idle p) t → copies id ts t.events ≤ 1
  unfolding copies versions
  Runs-broadcast_once id ts {p} {t} r = ground (arith, Runs-Bounded id ts r)

  -- Two versions of an edge arrive, the older adds it and the newer deletes it. A run claims both in
  -- order, applies the newer first and the older last: the plane has then seen the deletion, is idle
  -- again, and holds the edge.
  pub older_applied_last :
      (p : Plane) (add del : Envelope) (e : AddEdge) (d : DelEdge)
      → IsWellFormed p.g
      → (checked : Plane) → verify w checked add ≡ true
      → verify w checked del ≡ true
      → add.id ≡ del.id
      → leb_ℤ del.ts add.ts ≡ false
      → known p add.id add.ts ≡ false
      → kind_of add.kind ≡ Kind.add_edge
      → kind_of del.kind ≡ Kind.del_edge
      → w.unmarshal_add_edge add.payload ≡ some e
      → w.unmarshal_del_edge del.payload ≡ some d
      → (t : Net) × Runs (idle p) t
        × (t.flying ≡ [])
        × (known t.plane del.id del.ts ≡ true)
        × (is_some (cell t.plane.g.adj e.from e.to) ≡ true)
  older_applied_last p add del e d wf checked va vd same newer fresh ka kd ua ud =
      let p1 = (claim p add.id add.ts).0 in
      let p2 = (claim p1 del.id del.ts).0 in
      let p3 = (apply w p2 del).0 in
      let p4 = (apply w p3 add).0 in
      let before = known_newer p add.id add.ts del.ts fresh newer in
      let new : (known p1 del.id del.ts ≡ false) =
        ground (arith, known-claim p add.id add.ts del.id del.ts, before) in
      let in_order : Runs (idle p) _ =
        turn (turn stay (enter checked add va fresh)) (enter checked del vd new) in
      let wf2 : IsWellFormed p2.g = rw (g-claim, g-claim) wf in
      (
        _,
        turn (turn in_order (finish [] (add ∷ []) del refl)) (finish [] [] add refl),
        refl,
        rw ((apply-SameBook w p3 add).seen, (apply-SameBook w p2 del).seen)
            (ground (
              arith,
              known-claim p1 del.id del.ts del.id del.ts,
              text_eq_refl del.id,
              leb_ℤ_refl del.ts,
            )),
        rw (g-apply_add_edge w p3 add e ka ua) (
            ground (
              arith,
              cell-add_edge p3.g (record { from = e.from; to = e.to; weight = e.weight }) e.from
                  e.to (apply-IsWellFormed w p2 del wf2),
              text_eq_refl e.from,
              text_eq_refl e.to,
            )),
      )

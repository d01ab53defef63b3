-- ===== src/Graph/Reach.antt =====
-- `Reachable` terminates, and finds exactly the nodes that a walk from the start reaches.
use gsnet.Common.{
  ℕ, zero, suc, ◌+◌, ◌≤◌, ◌≡◌, refl, ◌↔◌, some, List, [], ◌∷◌, ◌++◌, not, ◌&&◌, ◌||◌, true, false,
  Text, text_eq, text_eq_iff, text_eq_refl, is_some, if◌then◌else◌, arith, inl, inr, Bool-cases,
  length, length-append,
}
use gsnet.Dict.{Dict, contains, get, has, put, keys}
use gsnet.Dict.Laws.{contains-keys}
use gsnet.Dict.Entries.{has-put}
use gsnet.Graph.{Graph, NodeData, TextSet, Search, visit, offer, bfs, neighbours, reachable}
use gsnet.Graph.Edges.{cell}
use gsnet.Graph.WellFormed.{IsWellFormed}

-- The walks from `start` along edges of the graph.
pub data Walk (g : Graph) (start : Text) : Text → Type 0 where
  here : has g.nodes start ≡ true → Walk g start start
  step : {u v : Text} → Walk g start u → is_some (cell g.adj u v) ≡ true → Walk g start v

contains-append :
    (x : Text) (xs ys : List Text) → contains x (xs ++ ys) ≡ (contains x xs || contains x ys)
unfolding contains
contains-append x [] ys = refl
contains-append x (y ∷ xs) ys = ground (arith, contains-append x xs ys)

has-offer :
    (s : Search) (ks : List Text) (x : Text)
    → has (offer s ks).visited x ≡ (has s.visited x || contains x ks)
unfolding offer contains
has-offer s [] x = ground arith
has-offer s (k ∷ ks) x = ground (
  arith,
  has-offer (if has s.visited k then s else visit s k) ks x,
  has-put s.visited k tt x,
  text_eq_iff k x,
)

queue-offer :
    (s : Search) (ks : List Text) (x : Text)
    → contains x (offer s ks).queue ≡ (contains x s.queue || contains x ks && not (has s.visited x))
unfolding offer contains
queue-offer s [] x = ground arith
queue-offer s (k ∷ ks) x = ground (
  arith,
  queue-offer (if has s.visited k then s else visit s k) ks x,
  has-put s.visited k tt x,
  text_eq_iff k x,
  contains-append x s.queue (k ∷ []),
)

-- The nodes of the graph that have not been visited.
unseen : Dict NodeData → TextSet → ℕ
unseen [] v = 0
unseen ((n, d) ∷ rest) v = (if has v n then 0 else 1) + unseen rest v

unseen-put-le :
    (nodes : Dict NodeData) (v : TextSet) (k : Text) → unseen nodes (put v k tt) ≤ unseen nodes v
unfolding unseen
unseen-put-le [] v k = omega arith
unseen-put-le ((n, d) ∷ rest) v k = ground (arith, unseen-put-le rest v k, has-put v k tt n)

unseen-put :
    (nodes : Dict NodeData) (v : TextSet) (k : Text)
    → has nodes k ≡ true
    → has v k ≡ false
    → suc (unseen nodes (put v k tt)) ≤ unseen nodes v
unfolding unseen get
unseen-put [] v k h u = cc
unseen-put ((n, d) ∷ rest) v k h u = ground (
  arith,
  unseen-put rest v k,
  unseen-put-le rest v k,
  has-put v k tt n,
  text_eq_iff n k,
  text_eq_iff k n,
)

-- A visit moves a node from the unseen ones to the queue.
work : Dict NodeData → Search → ℕ
work nodes s = unseen nodes s.visited + length s.queue

work-offer :
    (nodes : Dict NodeData) (s : Search) (ks : List Text)
    → ((x : Text) → contains x ks ≡ true → has nodes x ≡ true)
    → work nodes (offer s ks) ≤ work nodes s
unfolding offer contains work
work-offer nodes s [] inside = omega arith
work-offer nodes s (k ∷ ks) inside = ground (
  arith,
  work-offer nodes (if has s.visited k then s else visit s k) ks (λ x m. inside x (ground arith)),
  unseen-put nodes s.visited k (inside k (rw text_eq_refl)),
  length-append s.queue (k ∷ []),
)

module _ (g : Graph) (start : Text) (wf : IsWellFormed g) where
  record Inv (s : Search) : Type 0 where
    source : has s.visited start ≡ true
    queued : (x : Text) → contains x s.queue ≡ true → has s.visited x ≡ true
    sound : (x : Text) → has s.visited x ≡ true → Walk g start x
    closed :
        (u v : Text)
        → has s.visited u ≡ true
        → is_some (cell g.adj u v) ≡ true
        → (contains u s.queue || has s.visited v) ≡ true

  Inv-offer :
      (v : TextSet) (n : Text) (rest : List Text)
      → Inv (record { visited = v; queue = n ∷ rest })
      → Inv (offer (record { visited = v; queue = rest }) (keys (neighbours g.adj n)))
  unfolding contains
  Inv-offer v n rest h =
      let s : Search = record { visited = v; queue = rest } in
      let ks = keys (neighbours g.adj n) in
      let to_n = h.sound n (h.queued n (rw text_eq_refl)) in
      record {
        source = ground (arith, has-offer s ks start, h.source);
        queued = λ x q. ground (arith, has-offer s ks x, queue-offer s ks x, h.queued x);
        sound = λ x m. elim (Bool-cases (has v x)) [
          | inl old ↦ h.sound x old
          | inr new ↦
              step to_n (ground (arith, has-offer s ks x, contains-keys (neighbours g.adj n) x))
        ];
        closed = λ x y m e. ground (
          arith,
          has-offer s ks x,
          has-offer s ks y,
          queue-offer s ks x,
          h.closed x y,
          contains-keys (neighbours g.adj n) y,
          text_eq_iff n x,
        );
      }

  complete :
      (v : TextSet) {x : Text}
      → Inv (record { visited = v; queue = [] })
      → Walk g start x
      → has v x ≡ true
  unfolding contains
  complete v h (here p) = h.source
  complete v h (step {u} {v = y} w e) = h.closed u y (complete v h w) e

  bfs_decides :
      (fuel : ℕ) (v : TextSet) (queue : List Text)
      → Inv (record { visited = v; queue = queue })
      → work g.nodes (record { visited = v; queue = queue }) ≤ fuel
      → (t : TextSet) × (bfs fuel g.adj (record { visited = v; queue = queue }) ≡ some t)
        × ((x : Text) → (has t x ≡ true) ↔ Walk g start x)
  unfolding bfs work
  bfs_decides zero v [] h le = (v, refl, λ x. (h.sound x, complete v h))
  bfs_decides (suc fuel) v [] h le = (v, refl, λ x. (h.sound x, complete v h))
  bfs_decides zero v (n ∷ rest) h le = absurd (omega arith)
  bfs_decides (suc fuel) v (n ∷ rest) h le =
      let s : Search = record { visited = v; queue = rest } in
      let ks = keys (neighbours g.adj n) in
      let t : Search = offer s ks in
      bfs_decides fuel t.visited t.queue (Inv-offer v n rest h) (
        omega (
          arith,
          work-offer g.nodes s ks
              (λ x m. wf.closed n x (rw (contains-keys (neighbours g.adj n) x) at m)),
        ))

unseen-le : (nodes : Dict NodeData) (v : TextSet) → unseen nodes v ≤ length nodes
unfolding unseen
unseen-le [] v = omega arith
unseen-le ((n, d) ∷ rest) v = ground (arith, unseen-le rest v)

Walk-start : {g : Graph} {start x : Text} → Walk g start x → has g.nodes start ≡ true
Walk-start (here h) = h
Walk-start (step w e) = Walk-start w

Inv-start :
    (g : Graph) (start : Text) (wf : IsWellFormed g)
    → has g.nodes start ≡ true
    → Inv g start wf (record { visited = put [] start tt; queue = start ∷ [] })
unfolding get put contains
Inv-start g start wf h = record {
  source = rw text_eq_refl;
  queued = λ x q. ground arith;
  sound = λ x m. elim (Bool-cases (text_eq start x)) [
    | inl e ↦ rw (← (text_eq_iff start x).0 e) (here h)
    | inr e ↦ cc
  ];
  closed = λ u v m e. ground arith;
}

-- In a well-formed graph the search ends within the number of nodes, and its result holds a node
-- exactly if the start exists and a walk along edges leads from the start to it.
pub reachable_decides :
    (g : Graph) (start : Text)
    → IsWellFormed g
    → (t : TextSet) × (reachable g start ≡ some t)
      × ((x : Text) → (has t x ≡ true) ↔ Walk g start x)
unfolding reachable
reachable_decides g start wf = elim (Bool-cases (has g.nodes start)) [
  | inl h ↦ rw h (
      bfs_decides g start wf (length g.nodes) (put [] start tt) (start ∷ [])
        (Inv-start g start wf h)
        (unfold work get in
          omega (arith, unseen-put g.nodes [] start h refl, unseen-le g.nodes [])))
  | inr h ↦ rw h ([], refl, λ x. (λ m. unfold get in cc m, λ w. cc (Walk-start w)))
]

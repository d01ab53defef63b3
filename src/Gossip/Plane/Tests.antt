-- ===== src/Gossip/Plane/Tests.antt =====
-- The theorems on the gossip plane at a plane of node a and one of node b, which looks up the key of a.
use gsnet.Common.{
  ℕ, ◌≡◌, ◌≤◌, refl, List, [], ◌∷◌, ◌++◌, ◌||◌, ◌⊎◌, true, false, none, some, Text, text_eq,
  text_eq_refl, arith, codes, length, is_some, if◌then◌else◌,
}
use gsnet.Common.Int.{pos}
use gsnet.Dict.{get}
use gsnet.Graph
use gsnet.Graph.{Edge}
use gsnet.Graph.Edges.{cell}
use gsnet.Graph.WellFormed.{new-IsWellFormed}
use gsnet.Gossip.Message.{Bytes, kind_of, Envelope, signing_bytes, Hello, AddEdge, DelEdge}
use gsnet.Gossip.Message.Signing.{signing_bytes-injective}
use gsnet.Gossip.Sample.{sample, sample-IsJson, sample-KeyPair}
use gsnet.Gossip.Plane.{
  Plane, new_plane, receive, announce_add_edge, sent, apply, verify, verify_with, Event, broadcast,
  claim,
}
use gsnet.Gossip.Plane.Claims.{
  accepts, known, copies, receive_all, broadcast_once, receive_stays_dropped,
}
use gsnet.Gossip.Plane.Topology.{receive_all-IsWellFormed, apply_del_node_clears}
use gsnet.Gossip.Plane.Authentic.{Signed, receive-Signed}
use gsnet.Gossip.Plane.Announce.{announced_edge_arrives}
use gsnet.Gossip.Plane.Interleaving.{
  Net, Runs, stay, turn, enter, finish, idle, Runs-broadcast_once, older_applied_last,
}

abbrev key : Bytes
key = codes "0123456789abcdef0123456789abcdef"

abbrev a : Plane
a = record (new_plane (codes "a") Graph.new) { ed_priv = some key }

abbrev b : Plane
b = record (new_plane (codes "b") Graph.new) {
  pub_key_for = some (λ name. some key);
  listening = true;
}

abbrev open_plane : Plane
open_plane = new_plane (codes "c") Graph.new

abbrev edge : AddEdge
edge = record { from = codes "a"; to = codes "b"; weight = pos 4 }

abbrev dropped_edge : DelEdge
dropped_edge = record { from = codes "a"; to = codes "b" }

abbrev edge_body : Bytes
edge_body = 1 ∷ b'a' ∷ 1 ∷ b'b' ∷ 0 ∷ 4 ∷ []

abbrev drop_body : Bytes
drop_body = 1 ∷ b'a' ∷ 1 ∷ b'b' ∷ []

abbrev hello : Text → Hello
hello name = record {
  name = name;
  ed25519_public = key;
  wg_public = [];
  endpoint = codes "192.0.2.1:655";
  inner_addr = [];
  underlay_addr = [];
}

abbrev hello_body : Text → Bytes
hello_body name =
    length name ∷ (name ++ (32 ∷ (key ++ (0 ∷ 13 ∷ (codes "192.0.2.1:655" ++ (0 ∷ 0 ∷ []))))))

-- An envelope of node a with no signature.
abbrev bare : Text → ℕ → Bytes → Envelope
bare kind n body = record {
  id = codes "a/edge/b";
  origin = codes "a";
  kind = kind;
  ts = pos n;
  payload = body;
  signature = [];
}

abbrev add : Envelope
add = bare (codes "add_edge") 1 edge_body

abbrev del : Envelope
del = bare (codes "del_edge") 2 drop_body

broadcast_once_example :
    copies (codes "a/edge/b") (pos 1) (receive_all sample open_plane (add ∷ del ∷ add ∷ [])).1
    ≤ (if known open_plane (codes "a/edge/b") (pos 1) then 0 else 1)
broadcast_once_example =
    broadcast_once sample (add ∷ del ∷ add ∷ []) open_plane (codes "a/edge/b") (pos 1)

abbrev after_add : Plane × List Event
after_add = apply sample (claim open_plane add.id add.ts).0 add

abbrev one_net : Net
one_net = record { plane = after_add.0; flying = []; events = after_add.1 ++ broadcast add ∷ [] }

open_accepts : (env : Envelope) → verify sample open_plane env ≡ true
unfolding verify verify_with get
open_accepts env = refl

fresh_add : known open_plane add.id add.ts ≡ false
unfolding get
fresh_add = refl

one_call : Runs sample (idle sample open_plane) one_net
one_call =
    turn (turn stay (enter open_plane add (open_accepts add) fresh_add)) (finish [] [] add refl)

Runs-broadcast_once_example : copies (codes "a/edge/b") (pos 1) one_net.events ≤ 1
Runs-broadcast_once_example = Runs-broadcast_once sample (codes "a/edge/b") (pos 1) one_call

add_taken : accepts sample open_plane add ≡ true
unfolding verify verify_with get
add_taken = refl

abbrev plane_2 : Plane
plane_2 = (receive_all sample (receive sample open_plane add).0 (del ∷ [])).0

receive_stays_dropped_example :
    ((receive sample plane_2 add).0 ≡ plane_2) × ((receive sample plane_2 add).1 ≡ [])
receive_stays_dropped_example =
    receive_stays_dropped sample open_plane add (del ∷ []) add add_taken (text_eq_refl add.id) refl

receive-Signed_example :
    ((receive sample b add).0 ≡ b) × ((receive sample b add).1 ≡ []) ⊎ Signed sample b add
receive-Signed_example = receive-Signed sample b add refl

announced_edge_arrives_example :
    let added : Graph.Edge = record { from = codes "a"; to = codes "b"; weight = pos 4 } in
    let (p, events, reply) = announce_add_edge sample a (pos 1) (codes "b") (pos 4) in
    (env : Envelope) × (before : List Event) × (events ≡ before ++ broadcast env ∷ [])
    × (reply ≡ sent (sample.broadcast_ok env))
    × (p.g ≡ Graph.add_edge a.g added)
    × ((receive sample b env).0.g ≡ Graph.add_edge b.g added)
unfolding get
announced_edge_arrives_example =
    announced_edge_arrives sample sample-IsJson a b (pos 1) (codes "b") (pos 4) edge_body key key
      (λ name. some key) refl refl (sample-KeyPair key) refl refl refl refl

abbrev gone : Envelope
gone = bare (codes "del_node") 5 (hello_body (codes "b"))

apply_del_node_clears_example :
    let p = (receive sample open_plane add).0 in
    let q = (apply sample p gone).0 in
    let x = codes "a" in
    let y = codes "b" in
    (cell q.g.adj x y ≡ (if text_eq x y || text_eq y y then none else cell p.g.adj x y))
    × (get q.endpoints x ≡ (if text_eq y x then none else get p.endpoints x))
    × (get q.inners x ≡ (if text_eq y x then none else get p.inners x))
    × (get q.underlays x ≡ (if text_eq y x then none else get p.underlays x))
    × (get q.pub_keys x ≡ (if text_eq y x then none else get p.pub_keys x))
unfolding receive_all kind_of
apply_del_node_clears_example =
    apply_del_node_clears sample (receive sample open_plane add).0 gone (hello (codes "b"))
      (receive_all-IsWellFormed sample (add ∷ []) open_plane new-IsWellFormed) refl refl (λ e. cc e)
      (codes "a") (codes "b")

older_applied_last_example :
    (t : Net) × Runs sample (idle sample open_plane) t
    × (t.flying ≡ [])
    × (known t.plane del.id del.ts ≡ true)
    × (is_some (cell t.plane.g.adj (codes "a") (codes "b")) ≡ true)
unfolding kind_of
older_applied_last_example =
    older_applied_last sample open_plane add del edge dropped_edge new-IsWellFormed open_plane
      (open_accepts add) (open_accepts del) refl refl fresh_add refl refl refl refl

abbrev signed_add : Envelope
signed_add = record add { signature = 1 ∷ [] }

signing_bytes-injective_example :
    (add.id ≡ signed_add.id)
    × (add.origin ≡ signed_add.origin)
    × (add.kind ≡ signed_add.kind)
    × (add.ts ≡ signed_add.ts)
    × (add.payload ≡ signed_add.payload)
unfolding signing_bytes
signing_bytes-injective_example =
    signing_bytes-injective add signed_add refl refl refl (omega arith) refl refl refl (omega arith)
      refl

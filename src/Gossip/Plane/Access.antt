-- ===== src/Gossip/Plane/Access.antt =====
-- What callers install in a plane and what they ask of it: addresses that were learned from Hellos.
use gsnet.Common.{
  ℕ, ◌≡◌, ◌&&◌, not, true, [], ◌∷◌, Option, none, some, Text, text_eq, length, if◌then◌else◌, arith,
}
use gsnet.Dict.{Dict, get}
use gsnet.Dict.Laws.{get-put}
use gsnet.Gossip.Message.{Bytes, Kind, kind_of, Envelope, Hello}
use gsnet.Gossip.Outside.{Addr, Outside}
use gsnet.Gossip.Plane.{Plane, put_valid, nonempty, parse_hello_addr, apply, apply_kind}

-- `SetSigner`, `SetVerifier` and `OnMessage`
abbrev pub set_signer : Plane → Bytes → Plane
set_signer p key = record p { ed_priv = some key }

abbrev pub set_verifier : Plane → (Text → Option Bytes) → Plane
set_verifier p f = record p { pub_key_for = some f }

abbrev pub on_message : Plane → Plane
on_message p = record p { listening = true }

text_or_empty : Option Text → Text
text_or_empty none = []
text_or_empty (some s) = s

-- `EndpointOf`, `InnerAddrOf` and `UnderlayAddrOf`
pub endpoint_of : Plane → Text → Text
unfolding text_or_empty
endpoint_of p origin = text_or_empty (get p.endpoints origin)

pub inner_addr_of : Plane → Text → Option Addr
inner_addr_of p origin = get p.inners origin

pub underlay_addr_of : Plane → Text → Option Addr
underlay_addr_of p origin = get p.underlays origin

-- `OutboxSize` and `SeenSize`
pub outbox_size : Plane → ℕ
outbox_size p = length p.outbox

pub seen_size : Plane → ℕ
seen_size p = length p.seen

pub or_else {ℓ} : {A : Type ℓ} → Option A → Option A → Option A
or_else none b = b
or_else (some a) b = some a

get-put_valid :
    {A : Type 0} (d : Dict A) (k : Text) (o : Option A) (x : Text)
    → get (put_valid d k o) x ≡ (if text_eq k x then or_else o (get d x) else get d x)
unfolding or_else
get-put_valid d k none x = ground arith
get-put_valid d k (some v) x = get-put d k v x

endpoint_or-put_valid :
    (d : Dict Text) (k s x : Text)
    → text_or_empty (get (put_valid d k (nonempty s)) x)
      ≡ (if text_eq k x && not (text_eq s []) then s else text_or_empty (get d x))
unfolding text_or_empty text_eq
endpoint_or-put_valid d k [] x = ground arith
endpoint_or-put_valid d k (c ∷ s) x = ground (arith, get-put d k (c ∷ s) x)

module _ (w : Outside) where
  -- An applied add_node tells of the node that it names: its endpoint unless that is empty, and each of
  -- its two addresses that parses. What was known of that node else, and of all other nodes, stays.
  pub apply-add_node_learns :
      (p : Plane) (env : Envelope) (h : Hello)
      → kind_of env.kind ≡ Kind.add_node
      → w.unmarshal_hello env.payload ≡ some h
      → (x : Text)
      → let q = (apply w p env).0 in
        (endpoint_of q x ≡ (
          if text_eq h.name x && not (text_eq h.endpoint []) then h.endpoint else endpoint_of p x))
        × (inner_addr_of q x ≡ (
            if text_eq h.name x
            then or_else (parse_hello_addr w h.inner_addr) (inner_addr_of p x)
            else inner_addr_of p x))
        × (underlay_addr_of q x ≡ (
            if text_eq h.name x
            then or_else (parse_hello_addr w h.underlay_addr) (underlay_addr_of p x)
            else underlay_addr_of p x))
  unfolding apply endpoint_of inner_addr_of underlay_addr_of
  apply-add_node_learns p env h k u x =
      rw (k, u, apply, apply_kind)
        (
          endpoint_or-put_valid p.endpoints h.name h.endpoint x,
          get-put_valid p.inners h.name (parse_hello_addr w h.inner_addr) x,
          get-put_valid p.underlays h.name (parse_hello_addr w h.underlay_addr) x,
        )

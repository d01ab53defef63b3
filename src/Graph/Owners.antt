-- ===== src/Graph/Owners.antt =====
-- The two ways to ask who owns a subnet, `SubnetOwner` and `AllSubnets`, against the graph's own sets.
use gsnet.Common.{
  ◌≡◌, refl, ◌⊎◌, none, some, List, [], ◌∷◌, ◌||◌, true, false, Option, Text, text_eq_iff,
  text_eq_refl, is_some, if◌then◌else◌, arith, inl, inr, Bool-cases,
}
use gsnet.Dict.{Dict, contains, get, has, put, keys}
use gsnet.Dict.Laws.{get-put, contains-keys}
use gsnet.Dict.Entries.{IsDict}
use gsnet.Graph.{
  Graph, NodeData, subnet_owner, owner_in, claim_subnets, collect_subnets, all_subnets,
}
use gsnet.Graph.WellFormed.{IsWellFormed}
use gsnet.Graph.Subnets.{owned, owns}

owner_in_sound :
    (d : Dict NodeData) (s n : Text) → IsDict d → owner_in d s ≡ some n → owned (get d n) s ≡ true
unfolding owner_in get
owner_in_sound [] s n h e = cc
owner_in_sound ((m, x) ∷ d) s n h e = elim (Bool-cases (has x.subnets s)) [
  | inl p ↦ ground (arith, text_eq_refl n)
  | inr p ↦ ground (arith, text_eq_iff m n, owner_in_sound d s n h.1)
]

owner_in_complete :
    (d : Dict NodeData) (s n : Text) → owned (get d n) s ≡ true → is_some (owner_in d s) ≡ true
unfolding owner_in get
owner_in_complete [] s n e = cc
owner_in_complete ((m, x) ∷ d) s n e = ground (arith, owner_in_complete d s n)

-- An answer to the question who owns the subnet: a node that does, or nobody where none does.
pub IsAnswer : Graph → Text → Option Text → Type 0
IsAnswer g s none = (n : Text) → owns g n s ≡ false
IsAnswer g s (some n) = owns g n s ≡ true

subnet_owner_sound :
    (g : Graph) (s n : Text) → IsWellFormed g → subnet_owner g s ≡ some n → owns g n s ≡ true
unfolding subnet_owner
subnet_owner_sound g s n w e = owner_in_sound g.nodes s n w.distinct e

subnet_owner_complete : (g : Graph) (s n : Text) → subnet_owner g s ≡ none → owns g n s ≡ false
unfolding subnet_owner
subnet_owner_complete g s n e = ground (arith, owner_in_complete g.nodes s n)

answer :
    (g : Graph) (s : Text) (o : Option Text)
    → ((n : Text) → o ≡ some n → owns g n s ≡ true)
    → (o ≡ none → (n : Text) → owns g n s ≡ false)
    → IsAnswer g s o
unfolding IsAnswer
answer g s none f k = k refl
answer g s (some n) f k = f n refl

get-claim_subnets :
    (out : Dict Text) (name : Text) (ss : List Text) (s : Text)
    → get (claim_subnets out name ss) s ≡ (if contains s ss then some name else get out s)
unfolding claim_subnets contains
get-claim_subnets out name [] s = refl
get-claim_subnets out name (t ∷ ss) s =
    ground (arith, get-claim_subnets (put out t name) name ss s, get-put out t name s)

has-collect_subnets :
    (d : Dict NodeData) (out : Dict Text) (s : Text)
    → has (collect_subnets out d) s ≡ (has out s || is_some (owner_in d s))
unfolding collect_subnets owner_in
has-collect_subnets [] out s = ground arith
has-collect_subnets ((m, x) ∷ d) out s =
    let out' = claim_subnets out m (keys x.subnets) in
    ground (
      arith,
      has-collect_subnets d out' s,
      get-claim_subnets out m (keys x.subnets) s,
      contains-keys x.subnets s,
    )

collect_subnets_sound :
    (d : Dict NodeData) (out : Dict Text) (s n : Text)
    → IsDict d
    → get (collect_subnets out d) s ≡ some n
    → (get out s ≡ some n) ⊎ (owned (get d n) s ≡ true)
unfolding collect_subnets get
collect_subnets_sound [] out s n h e = inl e
collect_subnets_sound ((m, x) ∷ d) out s n h e =
    let out' = claim_subnets out m (keys x.subnets) in
    ground (
      arith,
      collect_subnets_sound d out' s n h.1 e,
      get-claim_subnets out m (keys x.subnets) s,
      contains-keys x.subnets s,
      text_eq_iff m n,
    )

has-all_subnets : (g : Graph) (s : Text) → has (all_subnets g) s ≡ is_some (subnet_owner g s)
unfolding all_subnets subnet_owner get
has-all_subnets g s = has-collect_subnets g.nodes [] s

all_subnets_sound :
    (g : Graph) (s n : Text) → IsWellFormed g → get (all_subnets g) s ≡ some n → owns g n s ≡ true
unfolding all_subnets get
all_subnets_sound g s n w e = ground (arith, collect_subnets_sound g.nodes [] s n w.distinct e)

-- In a well-formed graph `SubnetOwner` and `AllSubnets` both answer with an owner of the subnet, and
-- have no answer only if no node owns it.
pub owners_correct :
    (g : Graph) (s : Text)
    → IsWellFormed g
    → IsAnswer g s (subnet_owner g s) × IsAnswer g s (get (all_subnets g) s)
owners_correct g s w =
    let nobody : (subnet_owner g s ≡ none → (n : Text) → owns g n s ≡ false) =
      λ e n. subnet_owner_complete g s n e in
    (
      answer g s (subnet_owner g s) (λ n e. subnet_owner_sound g s n w e) nobody,
      answer g s (get (all_subnets g) s) (λ n e. all_subnets_sound g s n w e)
          (λ e. nobody (ground (arith, has-all_subnets g s))),
    )

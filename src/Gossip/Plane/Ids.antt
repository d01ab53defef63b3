-- ===== src/Gossip/Plane/Ids.antt =====
-- The stable IDs tell facts apart.
use gsnet.Common.{
  ℕ, ◌≡◌, refl, sym, ap, ◌∙◌, [], ◌∷◌, ◌++◌, true, none, some, Text, codes, arith, drop,
}
use gsnet.Strings.Cut.{Parts, cut, lacks, cut-append}
use gsnet.Gossip.Plane.{Plane, hello_id, edge_id, subnet_id}

-- What a node announces: itself, an edge to a node, a subnet.
pub data Fact : Type 0 where
  hello : Fact
  edge subnet : Text → Fact

abbrev pub fact_id : Plane → Fact → Text
fact_id p hello = hello_id p
fact_id p (edge to) = edge_id p to
fact_id p (subnet s) = subnet_id p s

abbrev tail_of : Fact → Text
tail_of hello = codes "hello"
tail_of (edge to) = codes "edge/" ++ to
tail_of (subnet s) = codes "subnet/" ++ s

abbrev first : Text → ℕ
first [] = 0
first (c ∷ cs) = c

abbrev part : Parts → Text × Text
part none = ([], [])
part (some q) = q

tail_of-injective : (f g : Fact) → tail_of f ≡ tail_of g → f ≡ g
tail_of-injective hello hello e = refl
tail_of-injective hello (edge b) e = absurd (omega (arith, ap first e))
tail_of-injective hello (subnet b) e = absurd (omega (arith, ap first e))
tail_of-injective (edge a) hello e = absurd (omega (arith, ap first e))
tail_of-injective (edge a) (edge b) e = ap edge (ap (drop 5) e)
tail_of-injective (edge a) (subnet b) e = absurd (omega (arith, ap first e))
tail_of-injective (subnet a) hello e = absurd (omega (arith, ap first e))
tail_of-injective (subnet a) (edge b) e = absurd (omega (arith, ap first e))
tail_of-injective (subnet a) (subnet b) e = ap subnet (ap (drop 7) e)

cut-fact_id :
    (p : Plane) (f : Fact)
    → lacks b'/' p.node_name ≡ true
    → cut b'/' (fact_id p f) ≡ some (p.node_name, tail_of f)
cut-fact_id p hello h = cut-append b'/' p.node_name (codes "hello") h
cut-fact_id p (edge to) h = cut-append b'/' p.node_name (codes "edge/" ++ to) h
cut-fact_id p (subnet s) h = cut-append b'/' p.node_name (codes "subnet/" ++ s) h

-- Where node names hold no slash, an ID belongs to one node and one fact: two facts, of one node or
-- of two, never share an ID.
pub fact_id-injective :
    (p q : Plane) (f g : Fact)
    → lacks b'/' p.node_name ≡ true
    → lacks b'/' q.node_name ≡ true
    → fact_id p f ≡ fact_id q g
    → (p.node_name ≡ q.node_name) × (f ≡ g)
fact_id-injective p q f g hp hq e =
    let same = sym (cut-fact_id p f hp) ∙ ap (cut b'/') e ∙ cut-fact_id q g hq in
    (ap (λ r. (part r).0) same, tail_of-injective f g (ap (λ r. (part r).1) same))

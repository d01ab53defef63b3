-- ===== src/Invite/File/Filled.antt =====
-- What `blockFromEntries` fills in from the entries that `Render` writes.
use gsnet.Common.{
  ◌≡◌, refl, sym, ap, ◌∙◌, List, [], ◌∷◌, ◌++◌, ◌||◌, not, Bool, true, none, Text, text_eq,
  text_eq_iff, codes, all, arith, Bool-cases, inl, inr,
}
use mathlib.Core.List.{append_assoc, append-nil}
use gsnet.Config.{Entry, get_first}
use gsnet.Strings.Fold.{equal_fold}
use gsnet.Invite.File.{Block, is_key, no_block, add_entry, block_onto, or_empty}
use gsnet.Invite.File.Blocks.{entry, entries_of, entry_if_set, rest_entries, block_entries, unnamed}

-- The key of an entry that `blockFromEntries` keeps as it is.
abbrev pub is_other : Entry → Bool
is_other e = not (
    is_key (codes "Name") e
    || is_key (codes "Address") e
    || is_key (codes "ConnectTo") e
    || is_key (codes "Ifconfig") e
    || is_key (codes "Route") e
    || is_key (codes "Netname") e)

abbrev no_netname : List Entry → Bool
no_netname es = all (λ e. not (is_key (codes "Netname") e)) es

all_both :
    (p : Entry → Bool) (es fs : List Entry)
    → all p es ≡ true
    → all p fs ≡ true
    → all p (es ++ fs) ≡ true
all_both p [] fs h k = k
all_both p (e ∷ es) fs h k = ground (arith, all_both p es fs)

-- A test that holds of an entry with this key, whatever its value.
all-entries_of :
    (p : Entry → Bool) (k : Text) (vs : List Text)
    → ((v : Text) → p (entry k v) ≡ true)
    → all p (entries_of k vs) ≡ true
all-entries_of p k [] h = refl
all-entries_of p k (v ∷ vs) h = ground (arith, all-entries_of p k vs h, h v)

all-entry_if_set :
    (p : Entry → Bool) (k v : Text)
    → ((v : Text) → p (entry k v) ≡ true)
    → all p (entry_if_set k v) ≡ true
unfolding entry_if_set
all-entry_if_set p k v h = elim (Bool-cases (text_eq v [])) [
  | inl e ↦ rw e refl
  | inr e ↦ rw (e, h v) refl
]

all-other :
    (p : Entry → Bool) (es : List Entry)
    → ((e : Entry) → is_other e ≡ true → p e ≡ true)
    → all is_other es ≡ true
    → all p es ≡ true
all-other p [] f h = refl
all-other p (e ∷ es) f h = ground (arith, all-other p es f, f e)

-- The entries behind the key for the network.
tail_entries : Block → List Entry
tail_entries b =
    entries_of (codes "ConnectTo") b.connect_to
    ++ (entry_if_set (codes "Address") b.address
        ++ (entries_of (codes "Ifconfig") b.ifconfig
            ++ (entries_of (codes "Route") b.route ++ b.other)))

all-tail_entries :
    (p : Entry → Bool) (b : Block)
    → ((v : Text) → p (entry (codes "ConnectTo") v) ≡ true)
    → ((v : Text) → p (entry (codes "Address") v) ≡ true)
    → ((v : Text) → p (entry (codes "Ifconfig") v) ≡ true)
    → ((v : Text) → p (entry (codes "Route") v) ≡ true)
    → ((e : Entry) → is_other e ≡ true → p e ≡ true)
    → all is_other b.other ≡ true
    → all p (tail_entries b) ≡ true
unfolding tail_entries
all-tail_entries p b h1 h2 h3 h4 f o = all_both p _ _ (all-entries_of p _ b.connect_to h1) (
    all_both p _ _ (all-entry_if_set p _ b.address h2) (
      all_both p _ _ (all-entries_of p _ b.ifconfig h3)
        (all_both p _ _ (all-entries_of p _ b.route h4) (all-other p b.other f o))))

pub unnamed-rest_entries :
    (net : Text) (b : Block) → all is_other b.other ≡ true → unnamed (rest_entries net b) ≡ true
unfolding rest_entries tail_entries equal_fold
unnamed-rest_entries net b h =
    let p : Entry → Bool = λ e. not (is_key (codes "Name") e) in
    all_both p (entry_if_set (codes "Netname") net) (tail_entries b)
      (all-entry_if_set p (codes "Netname") net (λ v. refl))
      (all-tail_entries p b (λ v. refl) (λ v. refl) (λ v. refl) (λ v. refl) (λ e o. ground arith) h)

block_onto-append :
    (es fs : List Entry) (b : Block) → block_onto b (es ++ fs) ≡ block_onto (block_onto b es) fs
unfolding block_onto
block_onto-append [] fs b = refl
block_onto-append (e ∷ es) fs b = block_onto-append es fs (add_entry b e)

fill_connect_to :
    (vs : List Text) (b : Block)
    → block_onto b (entries_of (codes "ConnectTo") vs)
      ≡ record b { connect_to = b.connect_to ++ vs }
unfolding block_onto add_entry equal_fold
fill_connect_to [] b = rw append-nil refl
fill_connect_to (v ∷ vs) b = fill_connect_to vs _ ∙ rw append_assoc refl

fill_ifconfig :
    (vs : List Text) (b : Block)
    → block_onto b (entries_of (codes "Ifconfig") vs) ≡ record b { ifconfig = b.ifconfig ++ vs }
unfolding block_onto add_entry equal_fold
fill_ifconfig [] b = rw append-nil refl
fill_ifconfig (v ∷ vs) b = fill_ifconfig vs _ ∙ rw append_assoc refl

fill_route :
    (vs : List Text) (b : Block)
    → block_onto b (entries_of (codes "Route") vs) ≡ record b { route = b.route ++ vs }
unfolding block_onto add_entry equal_fold
fill_route [] b = rw append-nil refl
fill_route (v ∷ vs) b = fill_route vs _ ∙ rw append_assoc refl

add_other :
    (b : Block) (e : Entry)
    → is_other e ≡ true
    → add_entry b e ≡ record b { other = b.other ++ (e ∷ []) }
unfolding add_entry
add_other b e h = ground arith

fill_other :
    (es : List Entry) (b : Block)
    → all is_other es ≡ true
    → block_onto b es ≡ record b { other = b.other ++ es }
unfolding block_onto
fill_other [] b h = rw append-nil refl
fill_other (e ∷ es) b h =
    rw (add_other b e (ground arith)) (fill_other es _ (ground arith) ∙ rw append_assoc refl)

fill_address :
    (v : Text) (b : Block)
    → b.address ≡ []
    → block_onto b (entry_if_set (codes "Address") v) ≡ record b { address = v }
unfolding block_onto entry_if_set add_entry equal_fold
fill_address v b h = elim (Bool-cases (text_eq v [])) [
  | inl y ↦ rw y (ground (arith, text_eq_iff v []))
  | inr n ↦ rw n refl
]

fill_netname : (v : Text) (b : Block) → block_onto b (entry_if_set (codes "Netname") v) ≡ b
unfolding block_onto entry_if_set add_entry equal_fold
fill_netname v b = elim (Bool-cases (text_eq v [])) [ inl y ↦ rw y refl | inr n ↦ rw n refl ]

-- The entries of a block fill it again.
pub block_onto-block_entries :
    (net : Text) (b : Block)
    → all is_other b.other ≡ true
    → block_onto no_block (block_entries net b) ≡ b
unfolding rest_entries add_entry equal_fold
block_onto-block_entries net b h =
    let start : Block = record no_block { name = b.name } in
    unfold block_onto in
    rw
      (
        block_onto-append,
        fill_netname net start,
        block_onto-append,
        fill_connect_to b.connect_to start,
        block_onto-append,
        fill_address b.address (record start { connect_to = b.connect_to }) refl,
        block_onto-append,
        fill_ifconfig b.ifconfig,
        block_onto-append,
        fill_route b.route,
        fill_other b.other _ h,
      )
      refl

get_first-none : (es : List Entry) → no_netname es ≡ true → get_first es (codes "Netname") ≡ none
unfolding get_first
get_first-none [] h = refl
get_first-none (e ∷ es) h = ground (arith, get_first-none es)

-- The first block names the network.
pub get_first-block_entries :
    (net : Text) (b : Block)
    → all is_other b.other ≡ true
    → or_empty (get_first (block_entries net b) (codes "Netname")) ≡ net
unfolding rest_entries tail_entries get_first equal_fold or_empty entry_if_set
get_first-block_entries net b h =
    let p : Entry → Bool = λ e. not (is_key (codes "Netname") e) in
    let none_behind = get_first-none (tail_entries b) (
      all-tail_entries p b (λ v. refl) (λ v. refl) (λ v. refl) (λ v. refl) (λ e o. ground arith)
        h) in
    elim (Bool-cases (text_eq net [])) [
      | inl y ↦ rw y (ap or_empty none_behind ∙ sym (ground (arith, text_eq_iff net [])))
      | inr n ↦ rw n refl
    ]

-- ===== src/Daemon/Init/Tests.antt =====
-- `init` on a tree that has a private key already.
use gsnet.Common.{
  ◌≡◌, ◌≢◌, ◌∙◌, refl, ap, sym, [], ◌∷◌, true, Option, none, some, Text, text_eq, text_eq_iff,
  codes, if◌then◌else◌, arith,
}
use gsnet.Daemon.Paths.{Paths}
use gsnet.Daemon.Init.{Tree, FreshKeys, init}
use gsnet.Daemon.Init.Keeps.{IsTree, init-There}

abbrev Files : Type 0
Files = Text → Option Text

abbrev put : Files → Text → Text → Files
put s path t = λ q. if text_eq path q then some t else s q

abbrev absent : Option Text → Option Files → Option Files
absent none o = o
absent (some t) o = none

abbrev tree : Tree Files
tree = record {
  read_file = λ s q. s q;
  mkdir_all = λ s path. some s;
  create_exclusive = λ s path. absent (s path) (some (put s path []));
  write = λ s path t. (put s path t, true);
  dir = λ path. path;
}

same_files : (s t : Files) (q : Text) → ◌≡◌ {A = Option Files} (some s) (some t) → t q ≡ s q
same_files s t q h = let e : s ≡ t = cc h in ap (λ (f : Files). f q) (sym e)

was_absent : (o : Option Text) (s : Option Files) (t : Files) → absent o s ≡ some t → o ≡ none
was_absent none s t h = refl
was_absent (some x) s t h = cc h

was_put :
    (o : Option Text) (s t : Files)
    → absent o (some s) ≡ some t
    → ◌≡◌ {A = Option Files} (some s) (some t)
was_put none s t h = h
was_put (some x) s t h = cc h

put_other : (s : Files) (path q text : Text) → q ≢ path → put s path text q ≡ s q
put_other s path q text ne = ground (arith, text_eq_iff path q)

tree-IsTree : IsTree tree
tree-IsTree = record {
  read-mkdir = λ s t path q h. same_files s t q h;
  exclusive = λ s t path h. was_absent (s path) (some (put s path [])) t h;
  read-create = λ s t path q ne h.
      same_files (put s path []) t q (was_put (s path) (put s path []) t h)
      ∙ put_other s path q [] ne;
  read-write = λ s path q text ne. put_other s path q text ne;
}

abbrev here : Paths
here = record { conf_root = codes "/etc/gsnet"; netname = codes "n" }

abbrev key_file : Text
key_file = codes "/etc/gsnet/n/ed25519_key.priv"

abbrev held : Files
held path = if text_eq path key_file then some (codes "old") else none

abbrev keys : FreshKeys
keys = record {
  ed25519 = some (1 ∷ []);
  wireguard = some (2 ∷ []);
  private_pem = λ k. some (codes "new");
  ed_public_text = λ k. codes "e";
  wg_private_text = λ k. codes "w";
  wg_public_text = λ k. codes "v";
}

key_held : tree.read_file held key_file ≡ some (codes "old")
unfolding text_eq
key_held = refl

init-There_example :
    tree.read_file (init tree here (codes "alpha") keys held).0 key_file ≡ some (codes "old")
init-There_example =
    init-There tree tree-IsTree here key_file (codes "old") (codes "alpha") keys held key_held

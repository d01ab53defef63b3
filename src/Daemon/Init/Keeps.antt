-- ===== src/Daemon/Init/Keeps.antt =====
-- `Init` never changes a file that is there.
use gsnet.Common.{
  ◌≡◌, ◌≢◌, refl, ap, ◌∙◌, [], ◌∷◌, ◌++◌, Bool, true, false, Option, none, some, Text, Option-cases,
  inl, inr,
}
use gsnet.NodeName.{validate, Result, ok, err}
use gsnet.Daemon.Paths.{
  Paths, hosts_dir, invitations_dir, ed25519_private, wg_private, conf_file, host_file,
}
use gsnet.Daemon.Init.{
  Tree, FreshKeys, Problem, Bytes, and_then, given, mkdir, written, create, write_file_exclusive,
  write_conf, write_keys, init, make_dirs, conf_text, host_text, bad_name, no_key, no_pem,
}

-- What is documented of the calls: making a directory changes no file, O_EXCL makes a file only where there
-- is none, and writing to a file changes no other.
pub record IsTree {S : Type 0} (fs : Tree S) : Type 0 where
  pub read-mkdir :
      (s t : S) (path q : Text) → fs.mkdir_all s path ≡ some t → fs.read_file t q ≡ fs.read_file s q
  pub exclusive :
      (s t : S) (path : Text) → fs.create_exclusive s path ≡ some t → fs.read_file s path ≡ none
  pub read-create :
      (s t : S) (path q : Text)
      → q ≢ path
      → fs.create_exclusive s path ≡ some t
      → fs.read_file t q ≡ fs.read_file s q
  pub read-write :
      (s : S) (path q text : Text)
      → q ≢ path
      → fs.read_file (fs.write s path text).0 q ≡ fs.read_file s q

module _ {S : Type 0} (fs : Tree S) (law : IsTree fs) (p : Paths) (q text : Text) where
  abbrev There : S → Type 0
  There s = fs.read_file s q ≡ some text

  and_then-There :
      (r : S × Option Problem) (next : S → S × Option Problem)
      → There r.0
      → ((s : S) → There s → There (next s).0)
      → There (and_then r next).0
  unfolding and_then
  and_then-There (s, none) next h k = k s h
  and_then-There (s, some e) next h k = h

  given-There :
      {A : Type 0} (s : S) (e : Problem) (o : Option A) (next : A → S × Option Problem)
      → There s
      → ((a : A) → There (next a).0)
      → There (given s e o next).0
  unfolding given
  given-There s e none next h k = h
  given-There s e (some a) next h k = k a

  mkdir-There : (s : S) (path : Text) → There s → There (mkdir fs p s path).0
  unfolding mkdir
  mkdir-There s path h = elim (Option-cases (fs.mkdir_all s path)) [
    | inl e ↦ rw (e, mkdir) h
    | inr (t, e) ↦ rw (e, mkdir) (law.read-mkdir s t path q e ∙ h)
  ]

  written-state : (r : S × Bool) → (written fs p r).0 ≡ r.0
  unfolding written
  written-state (s, true) = refl
  written-state (s, false) = refl

  create-There : (s : S) (path t : Text) → There s → There (create fs p s path t).0
  unfolding create
  create-There s path t h = elim (Option-cases (fs.create_exclusive s path)) [
    | inl e ↦ rw (e, create) h
    | inr (u, e) ↦
        let other : q ≢ path = λ same. cc (ap (fs.read_file s) same, h, law.exclusive s u path e) in
        rw (e, create)
          (ap (λ v. fs.read_file v q) (written-state (fs.write u path t))
            ∙ law.read-write u path q t other
            ∙ law.read-create s u path q other e
            ∙ h)
  ]

  write_file_exclusive-There :
      (s : S) (path t : Text) → There s → There (write_file_exclusive fs p s path t).0
  unfolding write_file_exclusive
  write_file_exclusive-There s path t h =
      and_then-There (mkdir fs p s (fs.dir path)) (λ u. create fs p u path t)
        (mkdir-There s (fs.dir path) h) (λ u k. create-There u path t k)

  write_conf-There :
      (name : Text) (ed wg : Bytes) (keys : FreshKeys) (s : S)
      → There s
      → There (write_conf fs p name ed wg keys s).0
  unfolding write_conf
  write_conf-There name ed wg keys s h =
      and_then-There (write_file_exclusive fs p s (conf_file p) (conf_text name))
        (λ t. write_file_exclusive fs p t (host_file p name) (host_text keys ed wg))
        (write_file_exclusive-There s (conf_file p) (conf_text name) h)
        (λ t k. write_file_exclusive-There t (host_file p name) (host_text keys ed wg) k)

  write_wg-There :
      (name : Text) (ed : Bytes) (keys : FreshKeys) (t : S)
      → There t
      → There
          (given t no_key keys.wireguard (λ wg.
            and_then
              (write_file_exclusive fs p t (wg_private p) (keys.wg_private_text wg ++ b'\n' ∷ []))
              (write_conf fs p name ed wg keys))).0
  write_wg-There name ed keys t k =
      given-There t no_key keys.wireguard
        (λ wg.
          and_then
            (write_file_exclusive fs p t (wg_private p) (keys.wg_private_text wg ++ b'\n' ∷ []))
            (write_conf fs p name ed wg keys))
        k
        (λ wg.
          and_then-There
            (write_file_exclusive fs p t (wg_private p) (keys.wg_private_text wg ++ b'\n' ∷ []))
            (write_conf fs p name ed wg keys)
            (write_file_exclusive-There t (wg_private p) (keys.wg_private_text wg ++ b'\n' ∷ []) k)
            (write_conf-There name ed wg keys))

  write_keys-There :
      (name : Text) (keys : FreshKeys) (s : S) → There s → There (write_keys fs p name keys s).0
  unfolding write_keys
  write_keys-There name keys s h = given-There s no_key keys.ed25519 _ h (λ ed.
      given-There s no_pem (keys.private_pem ed) _ h (λ pem.
        and_then-There (write_file_exclusive fs p s (ed25519_private p) pem) _
          (write_file_exclusive-There s (ed25519_private p) pem h)
          (λ t k. write_wg-There name ed keys t k)))

  make_dirs-There :
      (name : Text) (keys : FreshKeys) (s : S) → There s → There (make_dirs fs p name keys s).0
  unfolding make_dirs
  make_dirs-There name keys s h =
      and_then-There (mkdir fs p s (hosts_dir p))
        (λ t. and_then (mkdir fs p t (invitations_dir p)) (write_keys fs p name keys))
        (mkdir-There s (hosts_dir p) h)
        (λ t k.
          and_then-There (mkdir fs p t (invitations_dir p)) (write_keys fs p name keys)
            (mkdir-There t (invitations_dir p) k) (write_keys-There name keys))

  -- Whatever `init` is called on, and whether it ends with an error or not, each file that was there is
  -- there as it was: no key and no configuration is overwritten, where the calls do what is documented.
  pub init-There :
      (name : Text) (keys : FreshKeys) (s : S)
      → fs.read_file s q ≡ some text
      → fs.read_file (init fs p name keys s).0 q ≡ some text
  unfolding init
  init-There name keys s h = validated (validate name)
    where
      validated :
          (r : Result (Unit {0}))
          → There
              (elim r as (λ _. S × Option Problem) [
                | err e ↦ (s, some bad_name)
                | ok u ↦ make_dirs fs p name keys s
              ]).0
      validated (err e) = h
      validated (ok u) = make_dirs-There name keys s h

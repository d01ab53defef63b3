-- ===== src/Daemon/Init.antt =====
-- internal/daemon/init.go. The file system is a parameter over a type of its states, and so are the fresh
-- keys; `none` stands for an error. A run gives the state that it leaves, with its error.
pub mod Keeps
mod Tests
use gsnet.Common.{
  ℕ, List, [], ◌∷◌, ◌++◌, Bool, true, false, Option, none, some, Text, codes, if◌then◌else◌,
}
use gsnet.Config.{Entry, render}
use gsnet.NodeName.{validate, ok, err}
use gsnet.Daemon.Paths.{
  Paths, hosts_dir, host_file, invitations_dir, ed25519_private, wg_private, conf_file,
}

abbrev pub Bytes : Type 0
Bytes = List ℕ

pub record Tree (S : Type 0) : Type 0 where
  pub read_file : S → Text → Option Text
  pub mkdir_all : S → Text → Option S
  -- `OpenFile` with O_CREATE and O_EXCL, and `Write` to the file that it has made.
  pub create_exclusive : S → Text → Option S
  pub write : S → Text → Text → S × Bool
  -- `filepath.Dir`
  pub dir : Text → Text

-- The keys that are generated, and how they are written.
pub record FreshKeys : Type 0 where
  pub ed25519 : Option Bytes
  pub wireguard : Option Bytes
  pub private_pem : Bytes → Option Text
  pub ed_public_text : Bytes → Text
  pub wg_private_text : Bytes → Text
  pub wg_public_text : Bytes → Text

pub data Problem : Type 0 where
  bad_name mkdir_failed no_key no_pem write_failed : Problem
  exists_already : Text → Problem

unfoldable pub and_then :
    {S : Type 0} → S × Option Problem → (S → S × Option Problem) → S × Option Problem
and_then (s, some e) next = (s, some e)
and_then (s, none) next = next s

-- With a value, or the error.
unfoldable pub given :
    {S : Type 0} {A : Type 0}
    → S
    → Problem
    → Option A
    → (A → S × Option Problem)
    → S × Option Problem
given s e none next = (s, some e)
given s e (some a) next = next a

unfoldable pub conf_text : Text → Text
unfolding render
conf_text name = render (record { key = codes "Name"; value = name } ∷ [])

unfoldable pub host_text : FreshKeys → Bytes → Bytes → Text
unfolding render
host_text keys ed wg = render (
    record { key = codes "Ed25519PublicKey"; value = keys.ed_public_text ed }
    ∷ record { key = codes "WGPublicKey"; value = keys.wg_public_text wg }
    ∷ [])

module _ {S : Type 0} (fs : Tree S) (p : Paths) where
  unfoldable pub mkdir : S → Text → S × Option Problem
  mkdir s path = elim (fs.mkdir_all s path) [ none ↦ (s, some mkdir_failed) | some t ↦ (t, none) ]

  unfoldable pub written : S × Bool → S × Option Problem
  written (s, true) = (s, none)
  written (s, false) = (s, some write_failed)

  unfoldable pub create : S → Text → Text → S × Option Problem
  unfolding written
  create s path text = elim (fs.create_exclusive s path) [
    | none ↦ (s, some (exists_already path))
    | some t ↦ written (fs.write t path text)
  ]

  -- `writeFileExclusive`
  unfoldable pub write_file_exclusive : S → Text → Text → S × Option Problem
  unfolding and_then mkdir create
  write_file_exclusive s path text = and_then (mkdir s (fs.dir path)) (λ t. create t path text)

  -- The two configuration files.
  unfoldable pub write_conf : Text → Bytes → Bytes → FreshKeys → S → S × Option Problem
  unfolding and_then write_file_exclusive conf_file host_file conf_text host_text
  write_conf name ed wg keys s =
      and_then (write_file_exclusive s (conf_file p) (conf_text name))
        (λ t. write_file_exclusive t (host_file p name) (host_text keys ed wg))

  unfoldable pub write_keys : Text → FreshKeys → S → S × Option Problem
  unfolding and_then given write_file_exclusive write_conf ed25519_private wg_private
  write_keys name keys s = given s no_key keys.ed25519 (λ ed.
      given s no_pem (keys.private_pem ed) (λ pem.
        and_then (write_file_exclusive s (ed25519_private p) pem) (λ t.
          given t no_key keys.wireguard (λ wg.
            and_then (write_file_exclusive t (wg_private p) (keys.wg_private_text wg ++ b'\n' ∷ []))
              (write_conf name ed wg keys)))))

  unfoldable pub make_dirs : Text → FreshKeys → S → S × Option Problem
  unfolding and_then mkdir write_keys hosts_dir invitations_dir
  make_dirs name keys s =
      and_then (mkdir s (hosts_dir p))
        (λ t. and_then (mkdir t (invitations_dir p)) (write_keys name keys))

  -- `Init`
  unfoldable pub init : Text → FreshKeys → S → S × Option Problem
  unfolding make_dirs validate
  init name keys s = elim (validate name) [
    | err e ↦ (s, some bad_name)
    | ok u ↦ make_dirs name keys s
  ]

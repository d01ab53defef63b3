-- ===== src/Daemon/Invitations.antt =====
-- `handleInviteGet` and `handleInviteJoin`. The file system is a parameter over a type of its states;
-- `none` stands for an error.
pub mod Stored
pub mod SingleUse
use gsnet.Common.{
  ℕ, List, [], ◌∷◌, ◌++◌, Bool, true, false, Option, none, some, Text, text_eq, codes, not,
  if◌then◌else◌,
}
use gsnet.Strings.Space.{trim_space}
use gsnet.Config
use gsnet.Config.{Entry, get_first, parse}
use gsnet.Invite.File
use gsnet.Invite.File.{File, parse_file}
use gsnet.Daemon.Paths.{Paths, join, invitations_dir, hosts_dir, host_file}

abbrev pub Bytes : Type 0
Bytes = List ℕ

pub record Files (S : Type 0) : Type 0 where
  pub read_file : S → Text → Option Bytes
  pub write_file : S → Text → Bytes → Option S
  pub mkdir_all : S → Text → Option S
  pub remove : S → Text → Option S
  -- The string of some bytes, and `ParseEd25519PublicBase64`.
  pub text : Bytes → Text
  pub parse_public : Text → Option Bytes

pub data Joined : Type 0 where
  unknown_invitation mkdir_failed write_failed : Joined
  corrupt_invitation : File.Error → Joined
  name_mismatch : Text → Joined
  -- The invitation, and the key that is announced for the invitee, if there is one.
  joined : Bytes → Option Bytes → Joined

unfoldable pub invitation_path : Paths → Text → Text
unfolding join invitations_dir
invitation_path p cookie = join (invitations_dir p) cookie

module _ {S : Type 0} (fs : Files S) (p : Paths) where
  -- `handleInviteGet`
  unfoldable pub handle_invite_get : S → Text → Option Bytes
  unfolding invitation_path
  handle_invite_get s cookie = fs.read_file s (invitation_path p cookie)

  -- `_ = os.Remove(path)`
  unfoldable pub remove_or_keep : S → Text → S
  remove_or_keep s path = elim (fs.remove s path) [ none ↦ s | some t ↦ t ]

  key_entry : Option Text → Option Bytes
  unfolding trim_space
  key_entry none = none
  key_entry (some v) = fs.parse_public (trim_space v)

  key_of : Config.Result (List Entry) → Option Bytes
  unfolding key_entry get_first
  key_of (Config.err e) = none
  key_of (Config.ok es) = key_entry (get_first es (codes "Ed25519PublicKey"))

  -- The key in the host configuration, which `AnnounceHello` gets.
  unfoldable pub announced_key : Bytes → Option Bytes
  unfolding key_of parse
  announced_key host_config = key_of (parse (fs.text host_config))

  unfoldable pub written : Text → Bytes → Bytes → S → Option S → S × Joined
  unfolding remove_or_keep announced_key
  written path file host_config s none = (s, write_failed)
  written path file host_config s (some t) =
      (remove_or_keep t path, joined file (announced_key host_config))

  unfoldable pub with_dir : Text → Text → Bytes → Bytes → S → Option S → S × Joined
  unfolding written host_file
  with_dir path name file host_config s none = (s, mkdir_failed)
  with_dir path name file host_config s (some t) =
      written path file host_config t (fs.write_file t (host_file p name) host_config)

  unfoldable pub with_parsed : Text → Text → Bytes → Bytes → S → File.Result File → S × Joined
  unfolding with_dir hosts_dir
  with_parsed path name file host_config s (File.err e) = (s, corrupt_invitation e)
  with_parsed path name file host_config s (File.ok f) =
      if not (text_eq f.invitee.name name)
      then (s, name_mismatch f.invitee.name)
      else with_dir path name file host_config s (fs.mkdir_all s (hosts_dir p))

  unfoldable pub with_invitation : Text → Text → Bytes → S → Option Bytes → S × Joined
  unfolding with_parsed parse_file
  with_invitation path name host_config s none = (s, unknown_invitation)
  with_invitation path name host_config s (some file) =
      with_parsed path name file host_config s (parse_file (fs.text file))

  -- `handleInviteJoin`
  unfoldable pub handle_invite_join : S → Text → Text → Bytes → S × Joined
  unfolding with_invitation invitation_path
  handle_invite_join s cookie name host_config =
      let path = invitation_path p cookie in
      with_invitation path name host_config s (fs.read_file s path)

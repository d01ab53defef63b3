-- ===== src/Daemon/Fsck.antt =====
-- internal/daemon/fsck.go: the check of a configuration tree. A finding has its level, its path and what
-- it is about; the texts of the messages are not modelled.
pub mod Loads
use gsnet.Common.{
  ℕ, ◌%◌, ◌≡◌, List, [], ◌∷◌, ◌++◌, ◌&&◌, not, Bool, true, false, Option, none, some, Text, text_eq,
  codes, ◌==◌, if◌then◌else◌, all,
}
use gsnet.Strings.Space.{trim_space}
use gsnet.Config.{Entry, get_first, get_all}
use gsnet.Config
use gsnet.Config.Directory.{
  Disk, Opened, missing, unreadable, contents, Loading, loaded, failed, load_directory,
}
use gsnet.NodeName
use gsnet.NodeName.{validate}
use gsnet.DataPlane.{Bytes}
use gsnet.Daemon.Paths.{Paths, join, conf_file, hosts_dir, host_file, ed25519_private, wg_private}
use gsnet.Daemon.Loaded.{Parsers}

pub data Level : Type 0 where
  warning error : Level

pub data Problem : Type 0 where
  no_stat is_directory unparsed no_name bad_name bad_subnet key_missing loose_key key_unread
        key_unparsed :
      Problem
  host_missing host_unparsed ed_mismatch wg_mismatch bad_target target_missing : Problem

pub record Finding : Type 0 where
  pub level : Level
  pub path : Text
  pub problem : Problem

pub record Stat : Type 0 where
  pub is_dir : Bool
  pub perm : ℕ

-- `os.Stat`, and the public keys as texts.
pub record Inspector : Type 0 where
  pub stat : Text → Option Stat
  pub ed_public_text : Bytes → Text
  pub wg_public_text : Bytes → Text

abbrev pub fault : Text → Problem → List Finding
fault path problem = record { level = error; path = path; problem = problem } ∷ []

is_valid : NodeName.Result (Unit {0}) → Bool
is_valid (NodeName.ok u) = true
is_valid (NodeName.err e) = false

value_or_empty : Option Text → Text
value_or_empty none = []
value_or_empty (some v) = v

name_check : Text → Option Text → List Finding
unfolding is_valid validate
name_check path none = fault path no_name
name_check path (some name) = if is_valid (validate name) then [] else fault path bad_name

-- `checkPrivateKey`, from reading the file on.
parse_check : {K : Type 0} → Text → (Text → Option K) → Opened → List Finding
parse_check path parse missing = fault path key_unread
parse_check path parse unreadable = fault path key_unread
parse_check path parse (contents s) = elim (parse s) [
  | none ↦ fault path key_unparsed
  | some k ↦ []
]

-- `perm & 0o077 != 0`
loose : Text → ℕ → List Finding
loose path perm =
    if perm % 64 == 0 then [] else record { level = warning; path = path; problem = loose_key } ∷ []

stat_check : {K : Type 0} → Text → (Text → Option K) → Opened → Option Stat → List Finding
unfolding parse_check loose
stat_check path parse file none = fault path key_missing
stat_check path parse file (some st) = loose path st.perm ++ parse_check path parse file

-- The key of the host file and that of the private key agree, where there is a private key.
match_check :
    {K : Type 0} → Text → Problem → (K → Text) → (Text → Option K) → Text → Opened → List Finding
match_check path problem public parse got missing = []
match_check path problem public parse got unreadable = []
match_check path problem public parse got (contents s) = elim (parse s) [
  | none ↦ []
  | some k ↦ if text_eq got (public k) then [] else fault path problem
]

module _ {N : Type 0} (ps : Parsers N) (disk : Disk) (os : Inspector) (p : Paths) where
  unfoldable pub subnet_checks : List Text → List Finding
  subnet_checks [] = []
  subnet_checks (s ∷ ss) = elim (ps.parse_subnet s) [
    | none ↦ fault (conf_file p) bad_subnet ++ subnet_checks ss
    | some n ↦ subnet_checks ss
  ]

  abbrev pub wg_of : Text → Option Bytes
  wg_of s = ps.wg_key (trim_space s)

  -- `checkPrivateKey`
  unfoldable pub check_private_key : {K : Type 0} → Text → (Text → Option K) → List Finding
  unfolding stat_check
  check_private_key path parse = stat_check path parse (disk.open_file path) (os.stat path)

  -- `checkHostMatchesPrivate`
  unfoldable pub check_host_matches_private : Text → List Entry → List Finding
  unfolding match_check value_or_empty get_first trim_space
  check_host_matches_private path es =
      match_check path ed_mismatch os.ed_public_text ps.ed_private
        (trim_space (value_or_empty (get_first es (codes "Ed25519PublicKey"))))
        (disk.open_file (ed25519_private p))
      ++ match_check path wg_mismatch os.wg_public_text wg_of
          (trim_space (value_or_empty (get_first es (codes "WGPublicKey"))))
          (disk.open_file (wg_private p))

  parsed_host : Text → Config.Result (List Entry) → List Finding
  unfolding check_host_matches_private
  parsed_host path (Config.err e) = fault path host_unparsed
  parsed_host path (Config.ok es) = check_host_matches_private path es

  opened_host : Text → Opened → List Finding
  unfolding parsed_host
  opened_host path missing = fault path host_missing
  opened_host path unreadable = fault path host_missing
  opened_host path (contents s) = parsed_host path (Config.parse s)

  unfoldable pub host_check : Option Text → List Finding
  unfolding opened_host host_file
  host_check none = []
  host_check (some name) =
      let path = host_file p name in
      if text_eq name [] then [] else opened_host path (disk.open_file path)

  -- The loop over the ConnectTo entries.
  unfoldable pub target_checks : List Text → List Finding
  unfolding is_valid validate join hosts_dir
  target_checks [] = []
  target_checks (t ∷ ts) =
      let rest = target_checks ts in
      let path = join (hosts_dir p) t in
      if not (is_valid (validate t))
      then fault (conf_file p) bad_target ++ rest
      else elim (os.stat path) [ none ↦ fault path target_missing ++ rest | some st ↦ rest ]

  unfoldable pub entry_checks : Loading (List Entry) → List Finding
  unfolding name_check subnet_checks check_private_key host_check target_checks get_first get_all
  entry_checks (failed e) = fault (conf_file p) unparsed
  entry_checks (loaded es) =
      name_check (conf_file p) (get_first es (codes "Name"))
      ++ (subnet_checks (get_all es (codes "Subnet"))
          ++ (check_private_key (ed25519_private p) ps.ed_private
              ++ (check_private_key (wg_private p) wg_of
                  ++ (host_check (get_first es (codes "Name"))
                      ++ target_checks (get_all es (codes "ConnectTo"))))))

  unfoldable pub conf_check : Option Stat → List Finding
  unfolding entry_checks load_directory
  conf_check none = fault (conf_file p) no_stat
  conf_check (some st) =
      if st.is_dir
      then fault (conf_file p) is_directory
      else entry_checks (load_directory disk (conf_file p))

  -- `Fsck`
  unfoldable pub fsck : List Finding
  unfolding conf_check
  fsck = conf_check (os.stat (conf_file p))

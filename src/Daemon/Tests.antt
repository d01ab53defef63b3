-- ===== src/Daemon/Tests.antt =====
-- One network, with one file system for the invitations and one for the configuration.
use gsnet.Common.{
  ◌≡◌, ◌⊎◌, refl, ap, sym, List, [], ◌∷◌, ◌++◌, true, false, Option, none, some, Text, text_eq,
  codes, if◌then◌else◌, all, is_some,
}
use gsnet.Common.Int.{pos}
use gsnet.Strings.Space.{is_space, trim_space}
use gsnet.Strings.Cut.{split_onto}
use gsnet.Strings.Fold.{equal_fold, to_lower}
use gsnet.Dict.{get}
use gsnet.Config.{parse, get_first, get_all}
use gsnet.Config.Keys.{canonical_key}
use gsnet.Config.Directory.{Disk, contents, no_dir, load_directory}
use gsnet.NodeName.{validate}
use gsnet.Invite.File.{parse_file}
use gsnet.DataPlane.{Bytes, Prefix, hub, router}
use gsnet.Daemon.Paths.{
  Paths, net_dir, join, clean, clean_onto, conf_file, hosts_dir, host_file, invitations_dir,
  ed25519_private, wg_private,
}
use gsnet.Daemon.Invitations.{
  Files, joined, unknown_invitation, invitation_path, handle_invite_get, remove_or_keep,
  announced_key, written, with_dir, with_parsed, with_invitation, handle_invite_join,
}
use gsnet.Daemon.Invitations.Stored.{IsStore}
use gsnet.Daemon.Invitations.SingleUse.{
  Call, get_call, join_call, after_calls, Elsewhere, handle_invite_join_once,
}
use gsnet.Daemon.Loaded.{Parsers, Settings, done, load_settings, load}
use gsnet.Daemon.Loaded.Checked.{IsBounded, load-IsBounded}
use gsnet.Subnet
use gsnet.Daemon.Peers.{World, ParsedSubnet, with_parse, with_fields, build_state}
use gsnet.Daemon.Peers.Keyed.{AllPeers, build_state-AllPeers}
use gsnet.Daemon.Fsck.{
  Inspector, subnet_checks, check_private_key, check_host_matches_private, host_check,
  target_checks, entry_checks, conf_check, fsck,
}
use gsnet.Daemon.Fsck.Loads.{mild, Loads, fsck-Loads}

abbrev here : Paths
here = record { conf_root = codes "/etc/gsnet"; netname = codes "n" }

abbrev Store : Type 0
Store = Text → Option Bytes

abbrev store : Files Store
store = record {
  read_file = λ s q. s q;
  write_file = λ s q b. some (λ r. if text_eq q r then some b else s r);
  mkdir_all = λ s q. some s;
  remove = λ s q. some (λ r. if text_eq q r then none else s r);
  text = λ b. b;
  parse_public = λ t. none;
}

same_store : (f t : Store) (r : Text) → ◌≡◌ {A = Option Store} (some f) (some t) → t r ≡ f r
same_store f t r h = let e : f ≡ t = cc h in ap (λ (g : Store). g r) (sym e)

store-IsStore : IsStore store here
store-IsStore = record {
  writes = λ s t q r b h. same_store (λ x. if text_eq q x then some b else s x) t r h;
  makes = λ s t q r h. same_store s t r h;
  removes = λ s t q r h. same_store (λ x. if text_eq q x then none else s x) t r h;
}

abbrev letters : Store
letters r =
    if text_eq r (codes "/etc/gsnet/n/invitations/secret")
    then some (codes "Name = beta\n")
    else none

unfoldable joined_store : Store
unfolding handle_invite_join
joined_store =
    (handle_invite_join store here letters (codes "secret") (codes "beta") (codes "Port = 1\n")).0

joins :
    handle_invite_join store here letters (codes "secret") (codes "beta") (codes "Port = 1\n")
    ≡ (joined_store, joined (codes "Name = beta\n") none)
unfolding joined_store handle_invite_join with_invitation with_parsed with_dir written
    remove_or_keep announced_key invitation_path invitations_dir hosts_dir host_file net_dir join
    clean clean_onto split_onto parse_file parse text_eq canonical_key get to_lower equal_fold
    get_first trim_space is_space
joins = refl

-- Somebody tries the cookie, and somebody another one.
abbrev others : List (Call store here)
others = get_call (codes "secret") ∷ join_call (codes "other") (codes "gamma") [] ∷ []

away : Elsewhere store here (invitation_path here (codes "secret")) others
unfolding invitation_path invitations_dir hosts_dir host_file net_dir join clean clean_onto
    split_onto text_eq
away = (refl, tt)

handle_invite_join_once_example :
    let t = after_calls store here joined_store others in
    (handle_invite_get store here t (codes "secret") ≡ none)
    × (handle_invite_join store here t (codes "secret") (codes "eve") [] ≡ (t, unknown_invitation))
handle_invite_join_once_example =
    handle_invite_join_once store here store-IsStore letters joined_store (codes "secret")
      (codes "beta") (codes "eve") (codes "Port = 1\n") (codes "Name = beta\n") [] none others
      (λ t file there e. cc e) joins away

abbrev parsers : Parsers Text
parsers = record {
  ed_private = λ t. some t;
  wg_key = λ t. some t;
  parse_prefix = λ t. none;
  parse_addr = λ t. none;
  parse_subnet = λ t. some t;
}

abbrev disk : Disk
disk = record {
  open_file = λ path.
      if text_eq path (codes "/etc/gsnet/n/gsnet.conf")
      then contents (codes "Name = alpha\nVXLANPort = 70000\n")
      else if text_eq path (codes "/etc/gsnet/n/hosts/alpha")
      then contents (codes "Ed25519PublicKey = k\nWGPublicKey = k\n")
      else contents (codes "k");
  read_dir = λ path. no_dir;
  dir = λ path. path;
  join = λ a b. a ++ b;
}

abbrev old : Settings Text
old = record {
  node_name = [];
  conf = [];
  ed_priv = [];
  wg_priv = [];
  mode = hub;
  wg_interface = [];
  vxlan_iface = [];
  wg_listen_port = pos 0;
  vxlan_port = 0;
  vxlan_id = 0;
  mtu = pos 0;
  inner_addr = none;
  underlay_addr = none;
  subnets = [];
}

load-IsBounded_example :
    let (l, e) = load parsers old disk here in
    ((e ≡ none) × IsBounded l × (load_settings parsers disk here ≡ done l))
    ⊎ ((is_some e ≡ true) × (l ≡ old))
load-IsBounded_example = load-IsBounded parsers old disk here

-- One prefix can be read.
abbrev net : Subnet.Nets Prefix
net = record {
  no_prefix = record { addr = []; bits = 0 };
  contains = λ p a. false;
  prefix_text = λ p. [];
  mac_text = λ m. [];
  parse_mac_strict = λ s. none;
  parse_addr = λ s. none;
  parse_prefix = λ s. some (record { addr = 10 ∷ 0 ∷ 0 ∷ 0 ∷ []; bits = 8 });
  is_masked = λ p. true;
}

abbrev net_parsers : Parsers ParsedSubnet
net_parsers = record {
  ed_private = λ t. some t;
  wg_key = λ t. some t;
  parse_prefix = λ t. none;
  parse_addr = λ t. none;
  parse_subnet = λ t. none;
}

abbrev routed : Settings ParsedSubnet
routed = record {
  node_name = codes "gamma";
  conf = [];
  ed_priv = [];
  wg_priv = [];
  mode = router;
  wg_interface = [];
  vxlan_iface = [];
  wg_listen_port = pos 0;
  vxlan_port = 0;
  vxlan_id = 0;
  mtu = pos 0;
  inner_addr = none;
  underlay_addr = none;
  subnets = [];
}

abbrev world : World ParsedSubnet
world = record {
  wg_public = λ t. some t;
  parse_addr_port = λ t. none;
  parse_addr = λ t. none;
  parse_public = λ t. some t;
  mac_of = λ n. n.mac;
  prefix_of = λ n. n.prefix;
  endpoint_of = λ n. [];
  inner_addr_of = λ n. none;
  underlay_addr_of = λ n. some (10 ∷ 0 ∷ 0 ∷ 2 ∷ []);
  node_subnets = λ n. codes "10.0.0.0/8" ∷ [];
}

abbrev nodes : List Text
nodes = codes "alpha" ∷ codes "gamma" ∷ []

build_state-AllPeers_example :
    AllPeers
      (with_parse net net_parsers)
      (with_fields world)
      routed
      disk
      here
      nodes
      (build_state (with_parse net net_parsers) (with_fields world) routed disk here nodes).peers
build_state-AllPeers_example = build_state-AllPeers net net_parsers world routed disk here nodes

abbrev inspector : Inspector
inspector = record {
  stat = λ path. some (record { is_dir = false; perm = 384 });
  ed_public_text = λ k. k;
  wg_public_text = λ k. k;
}

no_error : all mild (fsck parsers disk inspector here) ≡ true
unfolding fsck conf_check entry_checks subnet_checks check_private_key check_host_matches_private
    host_check target_checks load_directory conf_file ed25519_private wg_private hosts_dir host_file
    net_dir join clean clean_onto split_onto validate parse text_eq canonical_key get to_lower
    equal_fold get_first get_all trim_space is_space
no_error = refl

fsck-Loads_example : Loads (load_settings parsers disk here)
fsck-Loads_example = fsck-Loads parsers disk inspector here no_error

-- ===== src/Daemon/Life/Tests.antt =====
-- A daemon that starts, on a kernel that does what it is told.
use gsnet.Common.{ℕ, ◌≡◌, ◌⊎◌, refl, List, [], ◌∷◌, none, some, Text, text_eq, codes, if◌then◌else◌}
use gsnet.Common.Int.{pos}
use gsnet.Strings.Space.{is_space, trim_space}
use gsnet.Strings.Cut.{split_onto}
use gsnet.Strings.Fold.{equal_fold, to_lower}
use gsnet.Dict.{get}
use gsnet.Config.{parse, get_first, get_all}
use gsnet.Config.Keys.{canonical_key}
use gsnet.Config.Directory.{Disk, missing, contents, no_dir, load_directory}
use gsnet.Graph.WellFormed.{IsWellFormed}
use gsnet.Gossip.Sample.{sample}
use gsnet.Gossip.Plane.{apply_and_broadcast, originate, announce_hello}
use gsnet.Control.{class_request}
use gsnet.Control.Server.{reply_line}
use gsnet.DataPlane.Linux.{Link, link, Kernel}
use gsnet.Daemon.Paths.{net_dir, join, clean, clean_onto, conf_file, ed25519_private, wg_private}
use gsnet.Daemon.Loaded.{
  Parsers, Settings, Failure, error, done, load_settings, read_settings, settings, loading,
  contents_of, or_error, mode_of, address_of, subnets_of,
}
use gsnet.Daemon.Loaded.Checked.{IsBounded}
use gsnet.Daemon.Peers.{World}
use gsnet.Daemon.Running.{Running, Site, announce_local, announce_subnets, if_sent}
use gsnet.Daemon.Running.Kept.{IsSound}
use gsnet.Daemon.Requests.{Texts, answer, req_reload}
use gsnet.Daemon.Requests.Reloaded.{reload_takes}
use gsnet.Daemon.Life.{Input, request, hangup, start, start_with, reconciled, fresh, live}
use gsnet.Daemon.Life.Sound.{live-IsSound}

abbrev device : Link
device = record { index = 1; link_mtu = pos 0; hardware_addr = []; src_addr = none }

-- The kernel counts what it is told.
abbrev kernel : Kernel ℕ
kernel = record {
  link_by_name = λ k n. link device;
  add_wireguard = λ k n m. some k;
  add_vxlan = λ k v. some k;
  link_del = λ k l. some k;
  set_mtu = λ k l m. some k;
  set_mac = λ k l m. some k;
  addr_replace = λ k l p. some k;
  set_up = λ k l. some k;
  neigh_list = λ k l. some [];
  neigh_append = λ k l r. some k;
  neigh_del = λ k l r. some k;
  device_peers = λ k n. some [];
  configure_device = λ k n key port cs. some k;
  public_key = λ key. key;
  sha256 = λ key. key;
  key_text = λ key. key;
  mac_text = λ m. m;
  ip_text = λ a. a;
}

abbrev parsers : Parsers Text
parsers = record {
  ed_private = λ t. some t;
  wg_key = λ t. some t;
  parse_prefix = λ t. none;
  parse_addr = λ t. none;
  parse_subnet = λ t. some t;
}

abbrev world : World Text
world = record {
  wg_public = λ t. some t;
  parse_addr_port = λ t. none;
  parse_addr = λ t. none;
  parse_public = λ t. some t;
  mac_of = λ n. none;
  prefix_of = λ n. record { addr = []; bits = 0 };
  endpoint_of = λ n. [];
  inner_addr_of = λ n. none;
  underlay_addr_of = λ n. none;
  node_subnets = λ n. [];
}

abbrev pub site : Site Text ℕ
site = record {
  paths = record { conf_root = codes "/etc/gsnet"; netname = codes "n" };
  parsers = parsers;
  base = world;
  outside = sample;
  calls = kernel;
  now = λ n. pos n;
  ed_public = λ k. k;
  wg_public_text = λ k. k;
  endpoint_text = λ a. [];
  prefix_text = λ p. [];
  subnet_text = λ n. n;
}

abbrev pub texts : Texts
texts = record { failure_text = λ f. codes "1"; reply_text = λ r. codes "1" }

abbrev pub disk : Disk
disk = record {
  open_file = λ path.
      if text_eq path (codes "/etc/gsnet/n/gsnet.conf")
      then contents (codes "Name = alpha\nVXLANPort = 70000\n")
      else contents (codes "k");
  read_dir = λ path. no_dir;
  dir = λ path. path;
  join = λ a b. a;
}

-- Somebody has removed the files.
abbrev empty_disk : Disk
empty_disk = record disk { open_file = λ path. missing }

starts : (d : Running Text ℕ) × (start site texts disk 0 ≡ some d)
unfolding start start_with reconciled fresh announce_local announce_subnets if_sent announce_hello
    originate apply_and_broadcast load_settings read_settings loading contents_of or_error mode_of
    address_of subnets_of settings load_directory conf_file ed25519_private wg_private net_dir join
    clean clean_onto split_onto parse text_eq canonical_key get to_lower equal_fold get_first
    get_all trim_space is_space
starts = (_, refl)

abbrev reload : Input
reload = request (record { class = class_request; kind = req_reload; args = [] })

abbrev inputs : List (Disk × Input)
inputs = (empty_disk, reload) ∷ (disk, hangup) ∷ []

live-IsSound_example :
    IsWellFormed (live site texts starts.0 inputs).plane.g
    × IsBounded (live site texts starts.0 inputs).settings
live-IsSound_example = live-IsSound site texts disk 0 starts.0 inputs starts.1

started-IsSound : IsSound starts.0
unfolding live
started-IsSound =
    let sound = live-IsSound site texts disk 0 starts.0 [] starts.1 in
    record { graph = sound.0; settings = sound.1 }

reload_takes_example :
    let (e, out) = answer site texts empty_disk starts.0 req_reload in
    ((l : Settings Text) × (load_settings parsers empty_disk site.paths ≡ done l)
      × (e.settings ≡ l))
    ⊎ ((f : Failure) × (load_settings parsers empty_disk site.paths ≡ error f)
        × (e ≡ starts.0)
        × (out ≡ reply_line req_reload (texts.failure_text f)))
reload_takes_example = reload_takes site texts empty_disk starts.0 started-IsSound

-- ===== src/Commands/Remote/Tests.antt =====
-- `gsnet dump` against a daemon with one node and one subnet.
use gsnet.Common.{
  ℕ, ◌≡◌, refl, [], ◌∷◌, map, true, false, Option, none, some, Text, text_eq, codes, if◌then◌else◌,
  arith,
}
use gsnet.Common.Int.{pos}
use gsnet.Strings.Space.{is_space}
use gsnet.Strings.Decimal.{itoa}
use gsnet.Dict.{get, put, keys, values}
use gsnet.Graph
use gsnet.Graph.{edges, all_subnets}
use gsnet.Gossip.Plane.{new_plane}
use gsnet.Control.{encode_pid_file}
use gsnet.Control.Server.{Server, handle}
use gsnet.Control.Client.{Scan}
use gsnet.Config.Directory.{Disk, contents, no_dir}
use gsnet.DataPlane.{hub}
use gsnet.DataPlane.Linux.Wireguard.{stats}
use gsnet.Daemon.Loaded.{Settings}
use gsnet.Daemon.Running.{Running}
use gsnet.Daemon.Requests.{
  control_handler, edge_item, subnet_item, traffic_items, req_dump_nodes, req_dump_edges,
  req_dump_subnets, req_dump_connections, req_dump_graph, req_dump_invitations,
}
use gsnet.Daemon.Requests.Dumped.{item_line, IsPrintable}
use gsnet.Daemon.Life.Tests.{site, texts, disk}
use gsnet.Commands.Remote.{asked, cmd_dump}
use gsnet.Commands.Remote.Printed.{Serves, cmd_dump-prints}

abbrev loaded : Settings Text
loaded = record {
  node_name = codes "alpha";
  conf = [];
  ed_priv = [];
  wg_priv = [];
  mode = hub;
  wg_interface = [];
  vxlan_iface = [];
  wg_listen_port = pos 655;
  vxlan_port = 4789;
  vxlan_id = 42;
  mtu = pos 1420;
  inner_addr = none;
  underlay_addr = none;
  subnets = [];
}

abbrev network : Graph.Graph
network = record {
  nodes = (codes "alpha", record { subnets = (codes "10.0.0.0/8", tt) ∷ [] }) ∷ [];
  adj = (codes "alpha", []) ∷ [];
}

abbrev daemon : Running Text ℕ
daemon = record {
  settings = loaded;
  plane = new_plane (codes "alpha") network;
  kernel = 0;
  last = none;
  endpoint = none;
  ticks = 0;
  events = [];
  exited = false;
}

abbrev server : Server (Running Text ℕ)
server = record {
  node_name = codes "alpha";
  cookie = codes "secret";
  pid = pos 7;
  handler = some (control_handler site texts disk);
  error_text = λ e. codes "bad";
}

abbrev sscanf : Scan
sscanf s = if text_eq s (codes "4 0 7") then some (pos 4, pos 0, pos 7) else none

abbrev run_disk : Disk
run_disk = record {
  open_file = λ path. contents (encode_pid_file (record { pid = pos 7; cookie = codes "secret" }));
  read_dir = λ path. no_dir;
  dir = λ path. path;
  join = λ a b. a;
}

abbrev talk : Text → Text → Option Text
talk path input = some (handle server daemon input).1

serves :
    Serves server daemon sscanf run_disk talk site.paths
      (codes "/run")
      (control_handler site texts disk)
unfolding is_space text_eq itoa
serves = record {
  pid_file_there = refl;
  talks = λ input. refl;
  handler = refl;
  number = omega arith;
  name = record { ne = λ e. cc e; plain_chars = refl };
  cookie = record { ne = λ e. cc e; plain_chars = refl };
  scans = refl;
}

printable : IsPrintable site texts disk daemon
unfolding edges all_subnets keys values put get stats traffic_items edge_item subnet_item is_space
    text_eq
printable = record {
  nodes = (record { ne = λ e. cc e; one_line = refl; ends = refl }, tt);
  edges = tt;
  subnets = (record { ne = λ e. cc e; one_line = refl; ends = refl }, tt);
  traffic = tt;
}

cmd_dump-prints_example :
    let run =
      λ (kind : Text). cmd_dump sscanf run_disk talk site.paths (codes "/run") (kind ∷ []) in
    let g = daemon.plane.g in
    (run (codes "nodes") ≡ asked (map (item_line req_dump_nodes) (Graph.node_names g), true))
    × (run (codes "edges")
        ≡ asked (map (item_line req_dump_edges) (map edge_item (Graph.edges g)), true))
    × (run (codes "subnets")
        ≡ asked (map (item_line req_dump_subnets) (map subnet_item (Graph.all_subnets g)), true))
    × (run (codes "connections") ≡ asked (item_line req_dump_connections (codes "0") ∷ [], false))
    × (run (codes "graph") ≡ asked (item_line req_dump_graph (codes "0") ∷ [], false))
    × (run (codes "invitations") ≡ asked (item_line req_dump_invitations (codes "0") ∷ [], false))
cmd_dump-prints_example =
    cmd_dump-prints site texts disk daemon server sscanf run_disk talk site.paths (codes "/run")
      serves refl printable

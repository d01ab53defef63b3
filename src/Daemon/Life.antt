-- ===== src/Daemon/Life.antt =====
-- The life of the daemon: what `Run` does before it serves, and then whatever comes in, one after the
-- other. Each input comes with what the file system holds at the time.
pub mod Sound
pub mod Tests
use gsnet.Common.{List, [], ◌∷◌, false, Option, none, some, if◌then◌else◌}
use gsnet.Graph
use gsnet.Gossip.Message.{Envelope}
use gsnet.Gossip.Plane.{new_plane, Reply}
use gsnet.Gossip.Plane.Access.{set_signer, on_message}
use gsnet.Config.Directory.{Disk}
use gsnet.Control.{Message}
use gsnet.DataPlane.{AddrPort}
use gsnet.Daemon.Loaded.{Settings, Outcome, error, done, load_settings}
use gsnet.Daemon.Running.{
  Running, Site, announce_local, apply_reconcile, on_hangup, on_alarm, on_tick, on_gossip,
  on_discovered,
}
use gsnet.Daemon.Requests.{Texts, control_handler}

pub data Input : Type 0 where
  request : Message → Input
  hangup alarm tick : Input
  gossip : Envelope → Input
  discovered : Option AddrPort → Input

module _ {N : Type 0} {K : Type 0} (site : Site N K) (texts : Texts) where
  -- The plane that `Run` makes. `on_gossip` installs the verifier.
  fresh : K → Settings N → Running N K
  fresh k l = record {
    settings = l;
    plane = on_message (set_signer (new_plane l.node_name Graph.new) l.ed_priv);
    kernel = k;
    last = none;
    endpoint = none;
    ticks = 0;
    events = [];
    exited = false;
  }

  -- `initial reconcile`, whose error is only logged.
  reconciled : Disk → Running N K × Option Reply → Option (Running N K)
  unfolding apply_reconcile
  reconciled disk (d, some e) = none
  reconciled disk (d, none) = some (apply_reconcile site disk d).0

  start_with : Disk → K → Outcome (Settings N) → Option (Running N K)
  unfolding fresh reconciled announce_local
  start_with disk k (error e) = none
  start_with disk k (done l) = reconciled disk (announce_local site disk (fresh k l))

  -- `Run` up to the first reconcile; `none` stands for an error.
  unfoldable pub start : Disk → K → Option (Running N K)
  unfolding start_with load_settings
  start disk k = start_with disk k (load_settings site.parsers disk site.paths)

  unfoldable pub on_input : Disk → Running N K → Input → Running N K
  unfolding control_handler on_hangup on_alarm on_tick on_gossip on_discovered
  on_input disk d (request m) = (control_handler site texts disk d m).0
  on_input disk d hangup = on_hangup site disk d
  on_input disk d alarm = on_alarm site disk d
  on_input disk d tick = on_tick site d
  on_input disk d (gossip env) = on_gossip site disk d env
  on_input disk d (discovered e) = on_discovered site disk d e

  -- Until `os.Exit`.
  unfoldable pub live : Running N K → List (Disk × Input) → Running N K
  unfolding on_input
  live d [] = d
  live d ((disk, i) ∷ is) = live (if d.exited then d else on_input disk d i) is

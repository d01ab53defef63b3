-- ===== src/Daemon/Requests.antt =====
-- `controlHandler`: what the running daemon does on a request, and what it writes.
pub mod Dumped
pub mod Reloaded
use gsnet.Common.{
  ℕ, List, [], ◌∷◌, ◌++◌, map, Bool, true, false, Option, none, some, Text, codes, if◌then◌else◌,
}
use gsnet.Common.Int.{ℤ, pos, int_eq}
use gsnet.Strings.Decimal.{itoa}
use gsnet.Dict.{Dict}
use gsnet.Graph
use gsnet.Graph.{Edge}
use gsnet.Graph.Removal.{purge}
use gsnet.Control.{Message}
use gsnet.Control.Server.{Server, reply_line}
use gsnet.Control.Client.{terminator}
use gsnet.DataPlane.Linux.Wireguard.{TrafficStats, stats}
use gsnet.Config.Directory.{Disk}
use gsnet.Gossip.Plane.{Reply}
use gsnet.Daemon.Loaded.{Failure}
use gsnet.Daemon.Running.{Running, Site, announce_local, load_again, apply_reconcile}

-- The codes of internal/control/protocol.go.
abbrev pub req_stop : ℤ
req_stop = pos 1

abbrev pub req_reload : ℤ
req_reload = pos 2

abbrev pub req_dump_nodes : ℤ
req_dump_nodes = pos 4

abbrev pub req_dump_edges : ℤ
req_dump_edges = pos 5

abbrev pub req_dump_subnets : ℤ
req_dump_subnets = pos 6

abbrev pub req_dump_connections : ℤ
req_dump_connections = pos 7

abbrev pub req_dump_graph : ℤ
req_dump_graph = pos 8

abbrev pub req_retry : ℤ
req_retry = pos 10

abbrev pub req_dump_traffic : ℤ
req_dump_traffic = pos 13

abbrev pub req_purge : ℤ
req_purge = pos 16

abbrev pub req_dump_invitations : ℤ
req_dump_invitations = pos 17

-- A dump: a line for each item, and `"%d %d\n"`.
unfoldable pub dump_lines : ℤ → List Text → Text
unfolding reply_line terminator
dump_lines t [] = terminator t ++ (b'\n' ∷ [])
dump_lines t (i ∷ is) = reply_line t i ++ dump_lines t is

-- `"%s %s %d"`
unfoldable pub edge_item : Edge → Text
edge_item e = e.from ++ (b' ' ∷ (e.to ++ (b' ' ∷ itoa e.weight)))

unfoldable pub subnet_item : Text × Text → Text
subnet_item (s, owner) = s ++ (b' ' ∷ owner)

-- `"%s %d %d %d"`
unfoldable pub traffic_item : TrafficStats → Text
traffic_item st =
    st.peer
    ++ (b' '
        ∷ (itoa (pos st.rx_bytes)
            ++ (b' ' ∷ (itoa (pos st.tx_bytes) ++ (b' ' ∷ itoa st.last_handshake)))))

unfoldable pub traffic_items : Option (List TrafficStats) → List Text
unfolding traffic_item
traffic_items none = []
traffic_items (some sts) = map traffic_item sts

-- How errors print.
pub record Texts : Type 0 where
  pub failure_text : Failure → Text
  pub reply_text : Reply → Text

module _ {N : Type 0} {K : Type 0} (site : Site N K) (texts : Texts) (disk : Disk) where
  announced : Running N K × Option Reply → Running N K × Text
  unfolding reply_line apply_reconcile
  announced (d, some e) = (d, reply_line req_reload (texts.reply_text e))
  announced (d, none) = ((apply_reconcile site disk d).0, reply_line req_reload (codes "0"))

  loaded_again : Running N K × Option Failure → Running N K × Text
  unfolding announced announce_local
  loaded_again (d, some e) = (d, reply_line req_reload (texts.failure_text e))
  loaded_again (d, none) = announced (announce_local site disk d)

  -- The search of `Reachable` always ends: `Graph.Reach.reachable_decides`.
  purged : Running N K → Running N K
  purged d = elim (purge d.plane.g d.settings.node_name) [
    | none ↦ d
    | some g ↦ record d { plane = record d.plane { g = g } }
  ]

  -- The `switch` on the type of the request.
  unfoldable pub answer : Running N K → ℤ → Running N K × Text
  unfolding loaded_again load_again purged dump_lines traffic_items subnet_item edge_item
  answer d t =
      if int_eq t req_stop
      then (record d { exited = true }, reply_line t (codes "0"))
      else if int_eq t req_reload
      then loaded_again (load_again site disk d)
      else if int_eq t req_dump_nodes
      then (d, dump_lines t (Graph.node_names d.plane.g))
      else if int_eq t req_dump_edges
      then (d, dump_lines t (map edge_item (Graph.edges d.plane.g)))
      else if int_eq t req_dump_subnets
      then (d, dump_lines t (map subnet_item (Graph.all_subnets d.plane.g)))
      else if int_eq t req_dump_traffic
      then (d, dump_lines t (traffic_items (stats site.calls d.kernel d.last)))
      else if int_eq t req_purge
      then (purged d, reply_line t (codes "0"))
      else (d, reply_line t (codes "0"))

  -- `controlHandler`. It returns no error, and the process ends in a request to stop, so nothing is
  -- done or written after that.
  unfoldable pub control_handler : Running N K → Message → Running N K × (Text × Option Text)
  unfolding answer
  control_handler d m =
      if d.exited then (d, ([], none)) else let (e, out) = answer d m.kind in (e, (out, none))

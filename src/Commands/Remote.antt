-- ===== src/Commands/Remote.antt =====
-- The commands that ask the daemon: `dialControl`, `runControlDump`, `cmdDump`, `cmdSimple` and the reading
-- loop of `cmdTop`. `talk` gives all that a server at a socket sends to a client that sends a text; `none`
-- stands for a socket that cannot be reached.
pub mod Printed
mod Tests
use gsnet.Common.{
  ℕ, List, [], ◌∷◌, ◌++◌, ◌||◌, Bool, true, false, Option, none, some, Text, text_eq, codes,
  if◌then◌else◌,
}
use gsnet.Common.Int.{ℤ}
use gsnet.Strings.Fields.{fields}
use gsnet.Strings.Cut.{ended_lines}
use gsnet.Control
use gsnet.Control.{PidFile, parse_pid_file, encode_message}
use gsnet.Control.Client.{
  Scan, Dialled, closed, bad_ack, auth_rejected, bad_greeting, connected, login, dial, terminator,
  read_dump, trim_eol,
}
use gsnet.Config.Directory.{Disk, Opened, missing, unreadable, contents}
use gsnet.Daemon.Paths.{Paths, pid_file, control_socket}
use gsnet.Daemon.Requests.{
  req_stop, req_reload, req_dump_nodes, req_dump_edges, req_dump_subnets, req_dump_connections,
  req_dump_graph, req_retry, req_purge, req_dump_invitations, req_dump_traffic,
}

pub data Asked (A : Type 0) : Type 0 where
  usage unknown_kind no_pid_file unreachable : Asked A
  bad_pid_file : Control.Error → Asked A
  not_connected : Dialled → Asked A
  asked : A → Asked A

-- `if err != nil { return err }`, and then the rest.
abbrev pub and_then : {A : Type 0} {B : Type 0} → Asked A → (A → Asked B) → Asked B
and_then usage next = usage
and_then unknown_kind next = unknown_kind
and_then no_pid_file next = no_pid_file
and_then unreachable next = unreachable
and_then (bad_pid_file e) next = bad_pid_file e
and_then (not_connected d) next = not_connected d
and_then (asked a) next = next a

-- The kinds of `cmdDump`.
unfoldable pub dump_request : Text → Option ℤ
dump_request kind =
    if text_eq kind (codes "nodes") || text_eq kind (codes "reachable")
    then some req_dump_nodes
    else if text_eq kind (codes "edges")
    then some req_dump_edges
    else if text_eq kind (codes "subnets")
    then some req_dump_subnets
    else if text_eq kind (codes "connections")
    then some req_dump_connections
    else if text_eq kind (codes "graph")
    then some req_dump_graph
    else if text_eq kind (codes "invitations")
    then some req_dump_invitations
    else none

-- The requests of `cmdSimple`, but for `pid`.
unfoldable pub simple_request : Text → Option ℤ
simple_request name =
    if text_eq name (codes "stop")
    then some req_stop
    else if text_eq name (codes "reload")
    then some req_reload
    else if text_eq name (codes "retry")
    then some req_retry
    else if text_eq name (codes "purge")
    then some req_purge
    else none

-- `"18 13 <peer> <rx> <tx> <hs>"`
pub record Row : Type 0 where
  pub peer : Text
  pub rx : Text
  pub tx : Text
  pub handshake : Text

unfoldable pub row_of : List Text → Option Row
row_of (c ∷ t ∷ peer ∷ rx ∷ tx ∷ hs ∷ more) =
    some (record { peer = peer; rx = rx; tx = tx; handshake = hs })
row_of _ = none

abbrev with_row : Option Row → List Row → List Row
with_row none rs = rs
with_row (some r) rs = r ∷ rs

-- The reading loop of `cmdTop`: the rows that it prints, and whether it reaches the terminator.
unfoldable pub read_top : List Text → List Row × Bool
unfolding row_of trim_eol terminator
read_top [] = ([], false)
read_top (raw ∷ raws) =
    let line = trim_eol raw in
    let (rows, ended) = read_top raws in
    if text_eq line (terminator req_dump_traffic)
    then ([], true)
    else (with_row (row_of (fields line)) rows, ended)

module _ (scan : Scan) (disk : Disk) (talk : Text → Text → Option Text) (p : Paths)
    (run_dir : Text) where
  -- What is still to be read once the client is connected.
  answers : Dialled → Asked Text
  answers (connected name pid rest) = asked rest
  answers closed = not_connected closed
  answers bad_ack = not_connected bad_ack
  answers auth_rejected = not_connected auth_rejected
  answers (bad_greeting e) = not_connected (bad_greeting e)

  heard : Option Text → Asked Text
  unfolding answers dial
  heard none = unreachable
  heard (some input) = answers (dial scan input)

  parsed : Control.Result PidFile → Asked PidFile
  parsed (Control.refused e) = bad_pid_file e
  parsed (Control.read pf) = asked pf

  pid_of : Opened → Asked PidFile
  unfolding parsed parse_pid_file
  pid_of missing = no_pid_file
  pid_of unreadable = no_pid_file
  pid_of (contents s) = parsed (parse_pid_file s)

  -- `dialControl`, and then the requests.
  unfoldable pub dial_control : Text → Asked Text
  unfolding heard pid_of pid_file control_socket
  dial_control requests =
      and_then (pid_of (disk.open_file (pid_file p run_dir)))
        (λ pf. heard (talk (control_socket p run_dir) (login pf.cookie ++ requests)))

  -- `runControlDump`: what it prints, and whether it ends without an error.
  unfoldable pub run_control_dump : ℤ → Asked (List Text × Bool)
  unfolding dial_control read_dump terminator ended_lines
  run_control_dump t =
      and_then (dial_control (encode_message t []))
        (λ rest. asked (read_dump (terminator t) (ended_lines [] rest)))

  unfoldable pub cmd_dump : List Text → Asked (List Text × Bool)
  unfolding run_control_dump dump_request
  cmd_dump (kind ∷ []) = elim (dump_request kind) [
    | none ↦ unknown_kind
    | some t ↦ run_control_dump t
  ]
  cmd_dump _ = usage

  -- `cmdSimple`, but for `pid`: whether a line came back, whatever it says.
  unfoldable pub cmd_simple : Text → Asked Bool
  unfolding simple_request dial_control ended_lines
  cmd_simple name = elim (simple_request name) [
    | none ↦ unknown_kind
    | some t ↦
        and_then (dial_control (encode_message t []))
          (λ rest. asked (elim (ended_lines [] rest) [ [] ↦ false | l ∷ ls ↦ true ]))
  ]

  -- `cmdSimple` on `pid`.
  unfoldable pub cmd_pid : Asked ℤ
  unfolding pid_of pid_file
  cmd_pid = and_then (pid_of (disk.open_file (pid_file p run_dir))) (λ pf. asked pf.pid)

  -- One turn of `cmdTop`.
  unfoldable pub top_turn : Asked (List Row × Bool)
  unfolding dial_control read_top ended_lines
  top_turn =
      and_then (dial_control (encode_message req_dump_traffic []))
        (λ rest. asked (read_top (ended_lines [] rest)))

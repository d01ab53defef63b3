-- ===== src/Commands/Remote/Printed.antt =====
-- A command against the running daemon.
use gsnet.Common.{
  ◌≡◌, refl, sym, ap, ◌∙◌, [], ◌∷◌, ◌++◌, map, Bool, true, false, Option, none, some, Text, text_eq,
  codes, if◌then◌else◌, arith,
}
use mathlib.Core.List.{append_assoc, append-nil}
use gsnet.Common.Int.{ℤ}
use gsnet.Strings.Decimal.{IsInt}
use gsnet.Strings.Fields.{IsWord}
use gsnet.Strings.Cut.{ended_lines}
use gsnet.Graph
use gsnet.Control.{Message, encode_pid_file, encode_message, class_request}
use gsnet.Control.Lines.{parse-encode_pid_file}
use gsnet.Control.Server.{Server, handle, serve_lines, error_if_any}
use gsnet.Control.Client.{Scan, login, terminator, read_dump}
use gsnet.Control.Client.Answered.{Scans, dial-handle, serve_request}
use gsnet.Config.Directory.{Disk, contents}
use gsnet.Daemon.Paths.{Paths, pid_file, control_socket}
use gsnet.Daemon.Running.{Running, Site}
use gsnet.Daemon.Requests.{
  Texts, answer, control_handler, edge_item, subnet_item, req_dump_nodes, req_dump_edges,
  req_dump_subnets, req_dump_connections, req_dump_graph, req_dump_invitations,
}
use gsnet.Daemon.Requests.Dumped.{prints, item_line, IsPrintable, dumps_printed, dumps_unanswered}
use gsnet.Commands.Remote.{
  asked, heard, answers, pid_of, parsed, dial_control, run_control_dump, cmd_dump, dump_request,
}

login-append :
    (cookie requests : Text)
    → login cookie ++ requests ≡ (codes "0 ^" ++ (cookie ++ codes " 0")) ++ (b'\n' ∷ requests)
login-append cookie requests =
    ap (λ s. codes "0 ^" ++ s)
      (append_assoc cookie (b' ' ∷ b'0' ∷ b'\n' ∷ []) requests
        ∙ sym (append_assoc cookie (codes " 0") (b'\n' ∷ requests)))

module _ {S : Type 0} (srv : Server S) (s : S) (scan : Scan) (disk : Disk)
    (talk : Text → Text → Option Text) (p : Paths) (run_dir : Text) where
  -- The server of the daemon as its client finds it: the file with the number of the process and the cookie,
  -- the socket, and a handler.
  pub record Serves (h : S → Message → S × (Text × Option Text)) : Type 0 where
    pub pid_file_there :
        disk.open_file (pid_file p run_dir)
        ≡ contents (encode_pid_file (record { pid = srv.pid; cookie = srv.cookie }))
    pub talks : (input : Text) → talk (control_socket p run_dir) input ≡ some (handle srv s input).1
    pub handler : srv.handler ≡ some h
    pub number : IsInt srv.pid
    pub name : IsWord srv.node_name
    pub cookie : IsWord srv.cookie
    pub scans : Scans scan srv.pid

  module _ (h : S → Message → S × (Text × Option Text)) (serves : Serves h) where
    pid_of_lem :
        pid_of scan disk talk p run_dir (disk.open_file (pid_file p run_dir))
        ≡ asked (record { pid = srv.pid; cookie = srv.cookie })
    unfolding pid_of
    pid_of_lem =
        rw
          (
            serves.pid_file_there,
            pid_of,
            parse-encode_pid_file (record { pid = srv.pid; cookie = srv.cookie }) serves.number
                serves.cookie,
          )
          (unfold parsed in refl)

    heard_lem :
        (requests : Text)
        → heard scan disk talk p run_dir
            (talk (control_socket p run_dir) (login srv.cookie ++ requests))
          ≡ asked (serve_lines srv s (ended_lines [] requests)).1
    unfolding heard answers
    heard_lem requests =
        rw
          (
            serves.talks (login srv.cookie ++ requests),
            login-append srv.cookie requests,
            dial-handle srv scan s requests serves.name serves.cookie serves.scans,
          )
          refl

    dial_control_lem :
        (requests : Text)
        → dial_control scan disk talk p run_dir requests
          ≡ asked (serve_lines srv s (ended_lines [] requests)).1
    unfolding dial_control
    dial_control_lem requests = rw (pid_of_lem, heard_lem requests) refl

    -- What `runControlDump` prints is what it reads of the handler's answer.
    pub run_control_dump_lem :
        (t : ℤ) (out : Text)
        → IsInt t
        → (h s (record { class = class_request; kind = t; args = [] })).1 ≡ (out, none)
        → run_control_dump scan disk talk p run_dir t
          ≡ asked (read_dump (terminator t) (ended_lines [] out))
    unfolding run_control_dump error_if_any
    run_control_dump_lem t out number wrote =
        rw
          (
            dial_control_lem (encode_message t []),
            serve_request srv s t h number serves.handler,
            wrote,
          )
          (ap (λ o. asked (read_dump (terminator t) (ended_lines [] o)))
            (append-nil (out ++ []) ∙ append-nil out))

abbrev choose :
    {A : Type 0}
    → Bool
    → A × (Text × Option Text)
    → A × (Text × Option Text)
    → A × (Text × Option Text)
choose b x y = if b then x else y

module _ {N K : Type 0} (site : Site N K) (texts : Texts) (now : Disk) (d : Running N K)
    (srv : Server (Running N K)) (scan : Scan) (disk : Disk) (talk : Text → Text → Option Text)
    (p : Paths) (run_dir : Text) where
  control_handler-out :
      (t : ℤ)
      → d.exited ≡ false
      → (control_handler site texts now d (record { class = class_request; kind = t; args = [] })).1
        ≡ ((answer site texts now d t).1, none)
  unfolding control_handler
  control_handler-out t here =
      ap
        (λ (b : Bool).
          (choose b (d, ([], none))
            ((answer site texts now d t).0, ((answer site texts now d t).1, none))).1)
        here

  module _ (serves : Serves srv d scan disk talk p run_dir (control_handler site texts now))
      (here : d.exited ≡ false) where
    dumps :
        (t : ℤ)
        → IsInt t
        → run_control_dump scan disk talk p run_dir t ≡ asked (prints site texts now d t)
    dumps t number =
        run_control_dump_lem srv d scan disk talk p run_dir (control_handler site texts now) serves
          t (answer site texts now d t).1 number (control_handler-out t here)

  -- `gsnet dump` against a running daemon that serves at the socket and wrote its own pid file: for
  -- `nodes`, `edges` and `subnets` it prints a line for each item of the daemon's graph, in order, and ends;
  -- for `connections`, `graph` and `invitations` it prints the one line that comes and does not end. The
  -- names are such as the lines can carry.
  pub cmd_dump-prints :
      Serves srv d scan disk talk p run_dir (control_handler site texts now)
      → d.exited ≡ false
      → IsPrintable site texts now d
      → let run = λ (kind : Text). cmd_dump scan disk talk p run_dir (kind ∷ []) in
        let g = d.plane.g in
        (run (codes "nodes") ≡ asked (map (item_line req_dump_nodes) (Graph.node_names g), true))
        × (run (codes "edges")
            ≡ asked (map (item_line req_dump_edges) (map edge_item (Graph.edges g)), true))
        × (run (codes "subnets")
            ≡ asked
                (map (item_line req_dump_subnets) (map subnet_item (Graph.all_subnets g)), true))
        × (run (codes "connections")
            ≡ asked (item_line req_dump_connections (codes "0") ∷ [], false))
        × (run (codes "graph") ≡ asked (item_line req_dump_graph (codes "0") ∷ [], false))
        × (run (codes "invitations")
            ≡ asked (item_line req_dump_invitations (codes "0") ∷ [], false))
  unfolding cmd_dump dump_request text_eq
  cmd_dump-prints serves here h =
      let whole = dumps_printed site texts now d h in
      let open_ended = dumps_unanswered site texts now d in
      (
        dumps serves here req_dump_nodes (omega arith) ∙ ap asked whole.0,
        dumps serves here req_dump_edges (omega arith) ∙ ap asked whole.1,
        dumps serves here req_dump_subnets (omega arith) ∙ ap asked whole.2,
        dumps serves here req_dump_connections (omega arith) ∙ ap asked open_ended.0,
        dumps serves here req_dump_graph (omega arith) ∙ ap asked open_ended.1,
        dumps serves here req_dump_invitations (omega arith) ∙ ap asked open_ended.2,
      )

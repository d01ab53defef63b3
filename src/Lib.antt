-- ===== src/Lib.antt =====
-- gsnet, a mesh VPN daemon: its control plane, and the data plane that it configures.
--
-- A node keeps a graph of the nodes it knows, with edges and subnets (internal/graph). The gossip plane
-- (internal/gossip) changes that graph: facts that the node announces and envelopes that come from peers
-- are verified, checked for being new, applied to the graph, and broadcast. The daemon reads
-- configuration files (internal/config), expands its node name (internal/nodename), answers control
-- requests, one of which purges the graph, and takes in nodes by invitation (internal/invite), which the
-- transport hands out (internal/transport). What the graph and the host files say of the peers becomes the
-- desired state of the data plane, which a reconciler brings to the kernel (internal/dataplane). The
-- program gsnet (cmd/gsnet) edits the configuration, takes invitations, and asks the running daemon.
--
-- Files and code:
-- - Graph: internal/graph/graph.go, one function for each method. Maps are association lists in which a
--   key is put in place or at the end (Dict), so the order of a Go map is one order among all. Edges,
--   WellFormed, Subnets, Owners and Reach hold the lemmas; Removal has the loops that clear edges, of
--   plane.go and of the request ReqPurge in internal/daemon/daemon.go.
-- - Gossip/Message: internal/gossip/message.go. Gossip/Outside: the packages and the transport that the
--   plane calls, as a record of functions. Gossip/Plane: internal/gossip/plane.go, `receive`,
--   `originate`, `apply` and the announcements as functions from the plane to the plane, the calls of
--   the listener and of the transport, and the returned error. `receive` is a call during which no other
--   comes in; Gossip/Plane/Interleaving takes concurrent calls apart into their locked steps. The key
--   checks are those of internal/keys/keys.go. Gossip/Plane/Access has the setters and getters.
-- - Config: internal/config/parser.go, with the table of canonical keys in Config/Keys.
-- - Config/Directory: `ParseFile` and `LoadDirectory` of the same file, over what the file system holds.
-- - NodeName: internal/nodename/nodename.go. Invite/Url: internal/invite/url.go. Invite/File:
--   internal/invite/file.go. Invite/Exchange: internal/invite/crypto.go over X25519, HKDF and a cipher.
-- - Transport: internal/transport/transport.go, the handlers of a connection, which is the text that the
--   peer sends before it closes, and Transport/Conns, the pool of gossip connections. Transport/Client:
--   internal/transport/client.go. Transport/Served is the server's side of a fetch, and
--   Transport/Exchanged puts both sides together.
-- - Daemon: internal/daemon. Paths is paths.go with Join and Clean of path/filepath; Invitations the two
--   handlers of invitations over a file system; Loaded the function `load`; Peers `buildState`,
--   `allowedIPsFor`, `lookupPubKey` and the target of `tryDialPeer`; Backoff the waits of
--   `maintainPeer`; Endpoints discovery.go; Fsck fsck.go; Init init.go. Running has what the daemon does with
--   its plane, its settings and the kernel: `announceLocal`, `applyReconcile`, the signals and the heartbeat;
--   Requests has `controlHandler`; Life is the start of `Run` and then any inputs in any order, each with
--   what the file system holds at the time.
-- - Commands: cmd/gsnet/main.go. Settings has `cmdGet`, `cmdSet`, `cmdAdd` and `cmdDel`; Exchange `cmdExport`
--   and `cmdImport`; Invitation `cmdJoin`; Remote the commands that ask the daemon.
-- - Sandbox: internal/sandbox, as the list of the system calls that are made. Upnp: internal/upnp/upnp.go.
-- - DataPlane: internal/dataplane/dataplane.go. DataPlane/Linux: internal/dataplane/linux/linux.go over a
--   record of the calls of netlink and wgctrl: Links has Reconcile, ensureWGInterface and ensureVXLAN,
--   Wireguard the peers of the device and Stats, Fdb the forwarding table.
-- - Pcap: internal/pcap/pcap.go over any `io.Writer`. Stun: internal/stun/stun.go, messages and answers; a
--   slice out of range is a result of its own.
-- - Control: internal/control/protocol.go. Control/Server: a connection of internal/control/server.go, and
--   Control/Client the other end of it.
-- - Compression: internal/compression/compression.go over zlib
--   and lz4. Subnet: internal/subnet/subnet.go over netip.
-- - Strings: what these files use of `strings` and `strconv`: TrimSpace, Fields, Cut, EqualFold,
--   ToLower, Itoa and Atoi. Letter case is that of texts compared with ASCII ones; where `get`, `set` and
--   `del` compare keys that may be any texts, EqualFold is a parameter. Common: numbers, texts and lists.
--
-- A text is a list of numbers: of bytes in Gossip and Invite, where strings are cut by position and
-- signed, and of code points in Config and NodeName, where the code goes by runes; Config measures a
-- line in UTF-8 bytes, since the scanner stops at a line of 65536. Time stamps, weights and ports are
-- integers, and `Atoi` answers within 64 bits. The search has the number of nodes as fuel, since
-- each is queued once; `digits` has its number and one more; the loop over the attributes of a STUN
-- response has one more than their bytes, since each takes at least four. All else is structural
-- recursion.
--
-- Calls that change the world, of the kernel, the file system or the network, are functions on a type of
-- its states; a call that fails leaves the state. Where a connection is handled, the text is all that the
-- peer sends, and the events of one connection are in order; connections meet in the pool and the plane.
--
-- Not modelled: sockets, deadlines, goroutines and processes; internal/script and the packet capture, which
-- are I/O; the cryptography, JSON, XML and HTTP, which are parameters; of cmd, the flags, the dispatch,
-- `cmdInvite`, `cmdPcap` and the formats of `cmdTop`; of internal/daemon, the functions that start and
-- connect the rest.
pub mod Commands
pub mod Sandbox
pub mod Upnp
pub mod Common
pub mod Dict
pub mod Strings
pub mod Graph
pub mod Gossip
pub mod Config
pub mod NodeName
pub mod Invite
pub mod Pcap
pub mod Stun
pub mod Control
pub mod Compression
pub mod Subnet
pub mod DataPlane
pub mod Daemon
pub mod Transport

-- ===== src/Daemon/Running.antt =====
-- The running daemon: `announceLocal`, `applyReconcile`, the two signals, a turn of the heartbeat and of
-- the discovery, and the gossip that comes in. The plane's listener is `applyReconcile`, so every fact that is
-- applied runs the data plane. A disk is what the file system holds at the time.
pub mod Kept
use gsnet.Common.{
  ℕ, ◌+◌, List, [], ◌∷◌, ◌++◌, Bool, true, false, Option, none, some, Text, if◌then◌else◌,
}
use gsnet.Common.Int.{ℤ}
use gsnet.Graph
use gsnet.Gossip.Message.{Envelope, Hello}
use gsnet.Gossip.Outside.{Outside}
use gsnet.Gossip.Plane.{
  Plane, Event, notify, broadcast, Reply, marshal_failed, failed_verification, already_seen, sent,
  Step, announce_hello, announce_add_subnet, receive, resend_outbox,
}
use gsnet.Gossip.Plane.Access.{set_verifier, endpoint_of, inner_addr_of, underlay_addr_of}
use gsnet.Config.Directory.{Disk}
use gsnet.DataPlane.{Bytes, Prefix, AddrPort, State}
use gsnet.DataPlane.Linux.{Kernel}
use gsnet.DataPlane.Linux.Links.{reconcile}
use gsnet.Daemon.Paths.{Paths}
use gsnet.Daemon.Loaded.{Parsers, Settings, Failure, load}
use gsnet.Daemon.Peers.{World, build_state, lookup_pub_key}
use gsnet.Daemon.Endpoints.{settle}

pub record Running (N K : Type 0) : Type 0 where
  pub settings : Settings N
  pub plane : Plane
  pub kernel : K
  pub last : Option State
  pub endpoint : Option AddrPort
  -- The steps of the plane and the calls of the transport so far.
  pub ticks : ℕ
  pub events : List Event
  -- `os.Exit` has been called.
  pub exited : Bool

-- What stays as it is: the paths, and the packages that the daemon calls. The four fields of `base` that
-- the plane and the graph answer are not used.
pub record Site (N K : Type 0) : Type 0 where
  pub paths : Paths
  pub parsers : Parsers N
  pub base : World N
  pub outside : Outside
  pub calls : Kernel K
  -- `time.Now().UnixNano()`, at the step of the plane with this number.
  pub now : ℕ → ℤ
  -- `EdPriv.Public().Raw()`, `WGPriv.Public().String()` and the `String` methods of addresses and subnets.
  pub ed_public : Bytes → Bytes
  pub wg_public_text : Bytes → Text
  pub endpoint_text : AddrPort → Text
  pub prefix_text : Prefix → Text
  pub subnet_text : N → Text

abbrev printed : {A : Type 0} → (A → Text) → Option A → Text
printed f none = []
printed f (some a) = f a

-- Whether the step called the listener.
unfoldable pub notified : List Event → Bool
notified [] = false
notified (notify e ∷ es) = true
notified (broadcast e ∷ es) = notified es

module _ {N : Type 0} {K : Type 0} (site : Site N K) where
  -- What the plane and the graph answer now.
  unfoldable pub world : Plane → World N
  world p = record site.base {
    endpoint_of = endpoint_of p;
    inner_addr_of = inner_addr_of p;
    underlay_addr_of = underlay_addr_of p;
    node_subnets = Graph.node_subnets p.g;
  }

  -- `applyReconcile`, and whether it returned no error.
  unfoldable pub apply_reconcile : Disk → Running N K → Running N K × Bool
  unfolding build_state reconcile world
  apply_reconcile disk d =
      let s =
        build_state site.parsers (world d.plane) d.settings disk site.paths
          (Graph.node_names d.plane.g) in
      let ((k, last), ok) = reconcile site.calls d.kernel d.last s in
      (record d { kernel = k; last = last }, ok)

  -- A step of the plane with the listener that is installed.
  unfoldable pub after_step : Disk → Running N K → Step → Running N K × Reply
  unfolding apply_reconcile notified
  after_step disk d (q, events, r) =
      let e = record d { plane = q; ticks = d.ticks + 1; events = d.events ++ events } in
      (if notified events then (apply_reconcile disk e).0 else e, r)

  -- `if err != nil { return err }`, and then the rest.
  unfoldable pub if_sent :
      Running N K × Reply → (Running N K → Running N K × Option Reply) → Running N K × Option Reply
  if_sent (d, sent true) next = next d
  if_sent (d, sent false) next = (d, some (sent false))
  if_sent (d, marshal_failed) next = (d, some marshal_failed)
  if_sent (d, failed_verification) next = (d, some failed_verification)
  if_sent (d, already_seen) next = (d, some already_seen)

  unfoldable pub hello : Running N K → Hello
  hello d = record {
    name = d.settings.node_name;
    ed25519_public = site.ed_public d.settings.ed_priv;
    wg_public = site.wg_public_text d.settings.wg_priv;
    endpoint = printed site.endpoint_text d.endpoint;
    inner_addr = printed site.prefix_text d.settings.inner_addr;
    underlay_addr = printed site.prefix_text d.settings.underlay_addr;
  }

  unfoldable pub announce_subnets : Disk → List N → Running N K → Running N K × Option Reply
  unfolding after_step if_sent
  announce_subnets disk [] d = (d, none)
  announce_subnets disk (n ∷ ns) d =
      let step = announce_add_subnet site.outside d.plane (site.now d.ticks) (site.subnet_text n) in
      if_sent (after_step disk d step) (announce_subnets disk ns)

  -- `announceLocal`, with its error.
  unfoldable pub announce_local : Disk → Running N K → Running N K × Option Reply
  unfolding announce_subnets hello
  announce_local disk d =
      let step = announce_hello site.outside d.plane (site.now d.ticks) (hello d) in
      if_sent (after_step disk d step) (announce_subnets disk d.settings.subnets)

  -- `d.load()` on the running daemon.
  unfoldable pub load_again : Disk → Running N K → Running N K × Option Failure
  unfolding load
  load_again disk d =
      let (l, e) = load site.parsers d.settings disk site.paths in (record d { settings = l }, e)

  reloaded : Disk → Running N K × Option Failure → Running N K
  unfolding announce_local
  reloaded disk (d, some e) = d
  reloaded disk (d, none) = (announce_local disk d).0

  -- `signalLoop` on SIGHUP and on SIGALRM.
  unfoldable pub on_hangup : Disk → Running N K → Running N K
  unfolding reloaded load_again apply_reconcile
  on_hangup disk d = (apply_reconcile disk (reloaded disk (load_again disk d))).0

  unfoldable pub on_alarm : Disk → Running N K → Running N K
  unfolding apply_reconcile
  on_alarm disk d = (apply_reconcile disk d).0

  -- A tick of `heartbeat`.
  unfoldable pub on_tick : Running N K → Running N K
  on_tick d =
      let (events, ok) = resend_outbox site.outside d.plane in
      record d { events = d.events ++ events }

  -- `OnGossip`: the plane receives an envelope, with the keys that the host files hold.
  unfoldable pub on_gossip : Disk → Running N K → Envelope → Running N K
  unfolding after_step lookup_pub_key world
  on_gossip disk d env =
      let own = site.ed_public d.settings.ed_priv in
      let p =
        set_verifier d.plane
          (lookup_pub_key site.parsers (world d.plane) d.settings own disk site.paths) in
      (after_step disk d (receive site.outside p env)).0

  -- What a turn of `runDiscovery` does with what it found.
  unfoldable pub on_discovered : Disk → Running N K → Option AddrPort → Running N K
  unfolding settle announce_local
  on_discovered disk d found =
      let (e, fresh) = settle d.endpoint found in
      let known = record d { endpoint = e } in
      if fresh then (announce_local disk known).0 else known

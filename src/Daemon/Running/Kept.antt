-- ===== src/Daemon/Running/Kept.antt =====
-- Every step of the running daemon keeps the graph well formed and the settings in their ranges.
use gsnet.Common.{◌+◌, ◌++◌, List, [], ◌∷◌, true, false, Option, none, some, Bool-cases, inl, inr}
use gsnet.Graph.WellFormed.{IsWellFormed}
use gsnet.Gossip.Message.{Envelope}
use gsnet.Gossip.Plane.{
  Reply, marshal_failed, failed_verification, already_seen, sent, Step, announce_hello,
  announce_add_subnet, receive,
}
use gsnet.Gossip.Plane.Access.{set_verifier}
use gsnet.Gossip.Plane.Topology.{
  announce_hello-IsWellFormed, announce_add_subnet-IsWellFormed, receive-IsWellFormed,
}
use gsnet.Config.Directory.{Disk}
use gsnet.DataPlane.{AddrPort}
use gsnet.Daemon.Peers.{lookup_pub_key}
use gsnet.Daemon.Endpoints.{settle}
use gsnet.Daemon.Loaded.{Settings, Failure}
use gsnet.Daemon.Loaded.Checked.{IsBounded, load-IsBounded}
use gsnet.Daemon.Running.{
  Running, Site, notified, world, apply_reconcile, after_step, if_sent, hello, announce_subnets,
  announce_local, load_again, reloaded, on_hangup, on_alarm, on_tick, on_gossip, on_discovered,
}

-- The graph is well formed and P holds of the settings.
pub record Keeps {N : Type 0} {K : Type 0} (P : Settings N → Type 0) (d : Running N K)
    : Type 0 where
  pub graph : IsWellFormed d.plane.g
  pub settings : P d.settings

abbrev pub IsSound : {N : Type 0} {K : Type 0} → Running N K → Type 0
IsSound d = Keeps IsBounded d

module _ {N : Type 0} {K : Type 0} (site : Site N K) (disk : Disk) (P : Settings N → Type 0) where
  pub apply_reconcile-Keeps :
      (d : Running N K) → Keeps P d → Keeps P (apply_reconcile site disk d).0
  unfolding apply_reconcile
  apply_reconcile-Keeps d h = record { graph = h.graph; settings = h.settings }

  after_step-Keeps :
      (d : Running N K) (s : Step)
      → IsWellFormed s.0.g
      → Keeps P d
      → Keeps P (after_step site disk d s).0
  unfolding after_step
  after_step-Keeps d (q, events, r) g h =
      let e = record d { plane = q; ticks = d.ticks + 1; events = d.events ++ events } in
      let kept : Keeps P e = record { graph = g; settings = h.settings } in
      elim (Bool-cases (notified events)) [
        | inl told ↦ rw told (apply_reconcile-Keeps e kept)
        | inr quiet ↦ rw quiet kept
      ]

  if_sent-Keeps :
      (d : Running N K) (r : Reply) (next : Running N K → Running N K × Option Reply)
      → Keeps P d
      → ((e : Running N K) → Keeps P e → Keeps P (next e).0)
      → Keeps P (if_sent site (d, r) next).0
  unfolding if_sent
  if_sent-Keeps d (sent true) next h k = k d h
  if_sent-Keeps d (sent false) next h k = h
  if_sent-Keeps d marshal_failed next h k = h
  if_sent-Keeps d failed_verification next h k = h
  if_sent-Keeps d already_seen next h k = h

  announce_subnets-Keeps :
      (ns : List N) (d : Running N K) → Keeps P d → Keeps P (announce_subnets site disk ns d).0
  unfolding announce_subnets
  announce_subnets-Keeps [] d h = h
  announce_subnets-Keeps (n ∷ ns) d h =
      let step = announce_add_subnet site.outside d.plane (site.now d.ticks) (site.subnet_text n) in
      let (e, r) = after_step site disk d step in
      if_sent-Keeps e r (announce_subnets site disk ns)
        (after_step-Keeps d step
          (announce_add_subnet-IsWellFormed site.outside d.plane (site.now d.ticks)
            (site.subnet_text n) h.graph)
          h)
        (announce_subnets-Keeps ns)

  pub announce_local-Keeps : (d : Running N K) → Keeps P d → Keeps P (announce_local site disk d).0
  unfolding announce_local
  announce_local-Keeps d h =
      let step = announce_hello site.outside d.plane (site.now d.ticks) (hello site d) in
      let (e, r) = after_step site disk d step in
      if_sent-Keeps e r (announce_subnets site disk d.settings.subnets)
        (after_step-Keeps d step
          (announce_hello-IsWellFormed site.outside d.plane (site.now d.ticks) (hello site d)
            h.graph)
          h)
        (announce_subnets-Keeps d.settings.subnets)

module _ {N : Type 0} {K : Type 0} (site : Site N K) (disk : Disk) where
  pub load_again-IsSound : (d : Running N K) → IsSound d → IsSound (load_again site disk d).0
  unfolding load_again
  load_again-IsSound d h = elim (load-IsBounded site.parsers d.settings disk site.paths) [
    | inl (e, b, l) ↦ record { graph = h.graph; settings = b }
    | inr (e, same) ↦ record { graph = h.graph; settings = rw same h.settings }
  ]

  reloaded-IsSound :
      (d : Running N K) (o : Option Failure) → IsSound d → IsSound (reloaded site disk (d, o))
  unfolding reloaded
  reloaded-IsSound d none h = announce_local-Keeps site disk IsBounded d h
  reloaded-IsSound d (some e) h = h

  pub on_hangup-IsSound : (d : Running N K) → IsSound d → IsSound (on_hangup site disk d)
  unfolding on_hangup
  on_hangup-IsSound d h =
      let (e, o) = load_again site disk d in
      apply_reconcile-Keeps site disk IsBounded (reloaded site disk (e, o))
        (reloaded-IsSound e o (load_again-IsSound d h))

  pub on_alarm-IsSound : (d : Running N K) → IsSound d → IsSound (on_alarm site disk d)
  unfolding on_alarm
  on_alarm-IsSound d h = apply_reconcile-Keeps site disk IsBounded d h

  pub on_tick-IsSound : (d : Running N K) → IsSound d → IsSound (on_tick site d)
  unfolding on_tick
  on_tick-IsSound d h = record { graph = h.graph; settings = h.settings }

  pub on_gossip-IsSound :
      (d : Running N K) (env : Envelope) → IsSound d → IsSound (on_gossip site disk d env)
  unfolding on_gossip
  on_gossip-IsSound d env h =
      let p = set_verifier d.plane (
        lookup_pub_key site.parsers (world site d.plane) d.settings
          (site.ed_public d.settings.ed_priv) disk site.paths) in
      after_step-Keeps site disk IsBounded d (receive site.outside p env)
        (receive-IsWellFormed site.outside p env h.graph) h

  pub on_discovered-IsSound :
      (d : Running N K) (found : Option AddrPort)
      → IsSound d
      → IsSound (on_discovered site disk d found)
  unfolding on_discovered
  on_discovered-IsSound d found h =
      let known = record d { endpoint = (settle d.endpoint found).0 } in
      let kept : IsSound known = record { graph = h.graph; settings = h.settings } in
      elim (Bool-cases (settle d.endpoint found).1) [
        | inl fresh ↦ rw fresh (announce_local-Keeps site disk IsBounded known kept)
        | inr old ↦ rw old kept
      ]

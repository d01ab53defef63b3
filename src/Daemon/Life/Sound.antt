-- ===== src/Daemon/Life/Sound.antt =====
-- The daemon stays sound as long as it lives.
use gsnet.Common.{◌≡◌, List, [], ◌∷◌, Bool, true, false, Option, none, some, if◌then◌else◌}
use gsnet.Graph.WellFormed.{IsWellFormed, new-IsWellFormed}
use gsnet.Gossip.Plane.{Reply}
use gsnet.Config.Directory.{Disk}
use gsnet.Daemon.Loaded.{Settings, Outcome, error, done, load_settings}
use gsnet.Daemon.Loaded.Checked.{All, IsBounded, load_settings-IsBounded}
use gsnet.Daemon.Running.{Running, Site, announce_local, apply_reconcile}
use gsnet.Daemon.Running.Kept.{
  IsSound, apply_reconcile-Keeps, announce_local-Keeps, on_hangup-IsSound, on_alarm-IsSound,
  on_tick-IsSound, on_gossip-IsSound, on_discovered-IsSound,
}
use gsnet.Daemon.Requests.{Texts}
use gsnet.Daemon.Requests.Reloaded.{control_handler-IsSound}
use gsnet.Daemon.Life.{
  Input, request, hangup, alarm, tick, gossip, discovered, fresh, reconciled, start_with, start,
  on_input, live,
}

module _ {N : Type 0} {K : Type 0} (site : Site N K) (texts : Texts) where
  reconciled-IsSound :
      (disk : Disk) (d e : Running N K) (o : Option Reply)
      → IsSound d
      → reconciled site texts disk (d, o) ≡ some e
      → IsSound e
  unfolding reconciled
  reconciled-IsSound disk d e (some r) h s = cc s
  reconciled-IsSound disk d e none h s =
      let same : (apply_reconcile site disk d).0 ≡ e = cc s in
      rw (← same) (apply_reconcile-Keeps site disk IsBounded d h)

  start_with-IsSound :
      (disk : Disk) (k : K) (d : Running N K) (o : Outcome (Settings N))
      → All IsBounded o
      → start_with site texts disk k o ≡ some d
      → IsSound d
  unfolding start_with fresh
  start_with-IsSound disk k d (error e) b s = cc s
  start_with-IsSound disk k d (done l) b s =
      let (e, r) = announce_local site disk (fresh site texts k l) in
      reconciled-IsSound disk e d r
        (announce_local-Keeps site disk IsBounded (fresh site texts k l)
          (record { graph = new-IsWellFormed; settings = b }))
        s

  on_input-IsSound :
      (disk : Disk) (d : Running N K) (i : Input)
      → IsSound d
      → IsSound (on_input site texts disk d i)
  unfolding on_input
  on_input-IsSound disk d (request m) h = control_handler-IsSound site texts disk d m h
  on_input-IsSound disk d hangup h = on_hangup-IsSound site disk d h
  on_input-IsSound disk d alarm h = on_alarm-IsSound site disk d h
  on_input-IsSound disk d tick h = on_tick-IsSound site disk d h
  on_input-IsSound disk d (gossip env) h = on_gossip-IsSound site disk d env h
  on_input-IsSound disk d (discovered e) h = on_discovered-IsSound site disk d e h

  either-IsSound :
      (b : Bool) (d e : Running N K) → IsSound d → IsSound e → IsSound (if b then d else e)
  either-IsSound true d e h k = h
  either-IsSound false d e h k = k

  live-Keeps :
      (is : List (Disk × Input)) (d : Running N K) → IsSound d → IsSound (live site texts d is)
  unfolding live
  live-Keeps [] d h = h
  live-Keeps ((disk, i) ∷ is) d h =
      live-Keeps is (if d.exited then d else on_input site texts disk d i)
        (either-IsSound d.exited d (on_input site texts disk d i) h (on_input-IsSound disk d i h))

  -- Once the daemon has started, whatever requests, signals, envelopes and endpoints come in whatever
  -- order, over whatever configuration, its graph is well formed and the numbers of its settings are in
  -- their ranges.
  pub live-IsSound :
      (disk : Disk) (k : K) (d : Running N K) (is : List (Disk × Input))
      → start site texts disk k ≡ some d
      → IsWellFormed (live site texts d is).plane.g × IsBounded (live site texts d is).settings
  unfolding start
  live-IsSound disk k d is h =
      let kept = live-Keeps is d (
        start_with-IsSound disk k d (load_settings site.parsers disk site.paths)
          (load_settings-IsBounded site.parsers disk site.paths) h) in
      (kept.graph, kept.settings)

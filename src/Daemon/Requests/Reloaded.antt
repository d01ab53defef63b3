-- ===== src/Daemon/Requests/Reloaded.antt =====
-- A request to reload, and what every request keeps.
use gsnet.Common.{
  ◌≡◌, ◌⊎◌, refl, ap, ◌∙◌, Bool, true, false, if◌then◌else◌, Option, none, some, Text, inl, inr,
}
use gsnet.Common.Int.{ℤ, int_eq}
use gsnet.Config.Directory.{Disk}
use gsnet.Control.{Message}
use gsnet.Control.Server.{reply_line}
use gsnet.Graph.WellFormed.{IsWellFormed}
use gsnet.Graph.Removal.{purge_keeps_reachable}
use gsnet.Gossip.Plane.{Reply}
use gsnet.Daemon.Loaded.{Settings, Failure, Outcome, error, done, load, load_settings, keep}
use gsnet.Daemon.Loaded.Checked.{IsBounded}
use gsnet.Daemon.Running.{Running, Site, announce_local, load_again}
use gsnet.Daemon.Running.Kept.{
  Keeps, IsSound, apply_reconcile-Keeps, announce_local-Keeps, load_again-IsSound,
}
use gsnet.Daemon.Requests.{
  Texts, announced, loaded_again, purged, answer, control_handler, req_stop, req_reload,
  req_dump_nodes, req_dump_edges, req_dump_subnets, req_dump_traffic, req_purge,
}

Outcome-cases :
    {A : Type 0} (o : Outcome A) → ((a : A) × (o ≡ done a)) ⊎ ((f : Failure) × (o ≡ error f))
Outcome-cases (error f) = inr (f, refl)
Outcome-cases (done a) = inl (a, refl)

module _ {N : Type 0} {K : Type 0} (site : Site N K) (texts : Texts) (disk : Disk) where
  announced-Keeps :
      (P : Settings N → Type 0) (d : Running N K) (o : Option Reply)
      → Keeps P d
      → Keeps P (announced site texts disk (d, o)).0
  unfolding announced
  announced-Keeps P d none h = apply_reconcile-Keeps site disk P d h
  announced-Keeps P d (some e) h = h

  loaded_again-Keeps :
      (P : Settings N → Type 0) (d : Running N K) (o : Option Failure)
      → Keeps P d
      → Keeps P (loaded_again site texts disk (d, o)).0
  unfolding loaded_again
  loaded_again-Keeps P d none h =
      let (e, r) = announce_local site disk d in
      announced-Keeps P e r (announce_local-Keeps site disk P d h)
  loaded_again-Keeps P d (some e) h = h

  purged-IsSound : (d : Running N K) → IsSound d → IsSound (purged site texts disk d)
  unfolding purged
  purged-IsSound d h =
      let (g, t, e, found, formed, iff, cells) =
        purge_keeps_reachable d.plane.g d.settings.node_name h.graph in
      rw (e, purged) (record { graph = formed; settings = h.settings })

  if-IsSound :
      {A : Type 0} (b : Bool) (x y : Running N K × A)
      → IsSound x.0
      → IsSound y.0
      → IsSound (if b then x else y).0
  if-IsSound true x y h k = h
  if-IsSound false x y h k = k

  answer-IsSound : (d : Running N K) (t : ℤ) → IsSound d → IsSound (answer site texts disk d t).0
  unfolding answer
  answer-IsSound d t h =
      let (e, o) = load_again site disk d in
      if-IsSound (int_eq t req_stop) _ _ (record { graph = h.graph; settings = h.settings })
        (if-IsSound (int_eq t req_reload) _ _
          (loaded_again-Keeps IsBounded e o (load_again-IsSound site disk d h))
          (if-IsSound (int_eq t req_dump_nodes) _ _ h (
            if-IsSound (int_eq t req_dump_edges) _ _ h (
              if-IsSound (int_eq t req_dump_subnets) _ _ h (
                if-IsSound (int_eq t req_dump_traffic) _ _ h
                  (if-IsSound (int_eq t req_purge) _ _ (purged-IsSound d h) h))))))

  pub control_handler-IsSound :
      (d : Running N K) (m : Message) → IsSound d → IsSound (control_handler site texts disk d m).0
  unfolding control_handler
  control_handler-IsSound d m h = if-IsSound d.exited _ _ h (answer-IsSound d m.kind h)

  took :
      (d : Running N K) (l : Settings N)
      → IsWellFormed d.plane.g
      → (loaded_again site texts disk (record d { settings = l }, none)).0.settings ≡ l
  took d l h =
      (loaded_again-Keeps (λ m. m ≡ l) (record d { settings = l }) none
        (record { graph = h; settings = refl })).settings

  -- `load` on the running daemon, by what the configuration gives.
  load_again_lem :
      (d : Running N K) (o : Outcome (Settings N))
      → load_settings site.parsers disk site.paths ≡ o
      → let (l, e) = keep site.parsers d.settings o in
        load_again site disk d ≡ (record d { settings = l }, e)
  unfolding load_again load
  load_again_lem d o h =
      ap
        (λ (x : Outcome (Settings N)). (
          record d { settings = (keep site.parsers d.settings x).0 },
          (keep site.parsers d.settings x).1,
        ))
        h

  -- A request to reload takes the settings that the configuration has now. Where they cannot be loaded,
  -- the daemon is as it was, and the answer is one line that says why.
  pub reload_takes :
      (d : Running N K)
      → IsSound d
      → let (e, out) = answer site texts disk d req_reload in
        ((l : Settings N) × (load_settings site.parsers disk site.paths ≡ done l)
          × (e.settings ≡ l))
        ⊎ ((f : Failure) × (load_settings site.parsers disk site.paths ≡ error f)
            × (e ≡ d)
            × (out ≡ reply_line req_reload (texts.failure_text f)))
  unfolding answer keep
  reload_takes d h = elim (Outcome-cases (load_settings site.parsers disk site.paths)) [
    | inl (l, e) ↦
        let ran = ap (loaded_again site texts disk) (load_again_lem d (done l) e) in
        inl (l, e, ap (λ (r : Running N K × Text). r.0.settings) ran ∙ took d l h.graph)
    | inr (f, e) ↦
        let ran = ap (loaded_again site texts disk) (load_again_lem d (error f) e) in
        let refused : answer site texts disk d req_reload
            ≡ (d, reply_line req_reload (texts.failure_text f)) =
          unfold loaded_again in ran in
        inr (
          f,
          e,
          ap (λ (r : Running N K × Text). r.0) refused,
          ap (λ (r : Running N K × Text). r.1) refused,
        )
  ]

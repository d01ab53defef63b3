-- ===== src/Upnp/Found.antt =====
-- `findWANConnection` against the list of the services below the root, and the answer that `Discover` takes.
use gsnet.Common.{
  ◌≡◌, refl, ap, ◌∙◌, List, [], ◌∷◌, ◌++◌, true, false, Option, none, some, Bool-cases, inl, inr,
  sym,
}
use gsnet.Upnp.{
  Service, Device, device, Devices, no_devices, more, is_wan, find_service, or_else, find_in_device,
  find_wan_connection,
}

-- The services of the devices that are listed below the root device, whose own services are not read: the
-- own services of a device in front of those of the devices in it.
unfoldable mutual
  pub services_in : Device → List Service
  services_in (device ss inner) = ss ++ services_of inner

  pub services_of : Devices → List Service
  services_of no_devices = []
  services_of (more d ds) = services_in d ++ services_of ds

find_service-append :
    (xs ys : List Service) → find_service (xs ++ ys) ≡ or_else (find_service xs) (find_service ys)
unfolding find_service
find_service-append [] ys = refl
find_service-append (s ∷ xs) ys = elim (Bool-cases (is_wan s)) [
  | inl e ↦ rw (e, find_service) refl
  | inr e ↦ rw (e, find_service) (find_service-append xs ys)
]

mutual
  unfolding find_service find_in_device find_wan_connection services_in services_of

  find_in_device_lem : (d : Device) → find_in_device d ≡ find_service (services_in d)
  find_in_device_lem (device ss inner) =
      ap (or_else (find_service ss)) (find_wan_connection_lem inner)
      ∙ sym (find_service-append ss (services_of inner))

  find_wan_connection_lem : (ds : Devices) → find_wan_connection ds ≡ find_service (services_of ds)
  find_wan_connection_lem no_devices = refl
  find_wan_connection_lem (more d ds) =
      ap (λ o. or_else o (find_wan_connection ds)) (find_in_device_lem d)
      ∙ ap (or_else (find_service (services_in d))) (find_wan_connection_lem ds)
      ∙ sym (find_service-append (services_in d) (services_of ds))

abbrev pub NoWan : List Service → Type 0
NoWan [] = Unit
NoWan (s ∷ ss) = (is_wan s ≡ false) × NoWan ss

-- What a search gives: the first service of the kind, with none of the kind in front of it.
abbrev pub FirstOf : List Service → Option Service → Type 0
FirstOf ss none = NoWan ss
FirstOf ss (some s) =
    (before after : List Service) × (ss ≡ before ++ (s ∷ after)) × NoWan before × (is_wan s ≡ true)

later :
    (s : Service) (ss : List Service) (o : Option Service)
    → is_wan s ≡ false
    → FirstOf ss o
    → FirstOf (s ∷ ss) o
later s ss none e h = (e, h)
later s ss (some t) e (before, after, whole, none_before, found) =
    (s ∷ before, after, ap (◌∷◌ s) whole, (e, none_before), found)

find_service-FirstOf : (ss : List Service) → FirstOf ss (find_service ss)
unfolding find_service
find_service-FirstOf [] = tt
find_service-FirstOf (s ∷ ss) = elim (Bool-cases (is_wan s)) [
  | inl e ↦ rw (e, find_service) ([], ss, refl, tt, e)
  | inr e ↦ rw (e, find_service) (later s ss (find_service ss) e (find_service-FirstOf ss))
]

-- `findWANConnection` finds the first service for WAN connections of the devices it is given, however deep its
-- device is nested, in the order in which a device's own services come in front of those of the devices in
-- it. It finds none only if no such device has one.
pub find_wan_connection-FirstOf : (ds : Devices) → FirstOf (services_of ds) (find_wan_connection ds)
find_wan_connection-FirstOf ds =
    rw (find_wan_connection_lem ds) (find_service-FirstOf (services_of ds))

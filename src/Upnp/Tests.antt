-- ===== src/Upnp/Tests.antt =====
-- A gateway whose connection service is two devices deep.
use gsnet.Common.{[], ◌∷◌, Text, codes}
use gsnet.Upnp.{Service, device, Devices, no_devices, more, find_wan_connection}
use gsnet.Upnp.Found.{FirstOf, services_of, find_wan_connection-FirstOf}

abbrev service : Text → Service
service t = record { service_type = t; control_url = codes "/ctl" }

abbrev gateway : Devices
gateway =
    more
      (device (service (codes "Layer3Forwarding") ∷ [])
        (more (device (service (codes "WANIPConnection") ∷ []) no_devices) no_devices))
      no_devices

find_wan_connection-FirstOf_example : FirstOf (services_of gateway) (find_wan_connection gateway)
find_wan_connection-FirstOf_example = find_wan_connection-FirstOf gateway

-- ===== src/Upnp.antt =====
-- internal/upnp/upnp.go: the answers to the search and the description of a device. Upnp/Actions has the
-- requests to the gateway. HTTP, XML and URLs are parameters over a type of states of the network; `none`
-- stands for an error.
pub mod Actions
pub mod Found
mod Tests
use gsnet.Common.{
  ℕ, ◌-◌, ◌/◌, List, [], ◌∷◌, ◌++◌, ◌&&◌, ◌||◌, not, map, Bool, true, false, Option, none, some,
  Text, text_eq, codes, leb, ◌==◌, is_some, if◌then◌else◌,
}
use gsnet.Common.Int.{ℤ, pos, negsuc}
use gsnet.Strings.Space.{trim_space}
use gsnet.Strings.Decimal.{itoa}
use gsnet.Strings.Cut.{Parts, cut, strip_prefix}
use gsnet.Config.{lines_onto, drop_cr}
use gsnet.Dict.{Dict, get, put}

pub record Service : Type 0 where
  pub service_type : Text
  pub control_url : Text

-- `innerDevice`: its services and the devices in it. `DeviceType` is not read.
mutual
  pub data Device : Type 0 where
    device : List Service → Devices → Device

  pub data Devices : Type 0 where
    no_devices : Devices
    more : Device → Devices → Devices

pub record Igd : Type 0 where
  pub control : Text
  pub service : Text
  pub local_ip : Option (List ℕ)

-- `strings.ToUpper`, in ASCII.
unfoldable pub to_upper : Text → Text
to_upper = map (λ c. if leb b'a' c && leb c b'z' then c - 32 else c)

with_header : Dict Text → Parts → Dict Text
unfolding to_upper trim_space
with_header out none = out
with_header out (some (key, value)) =
    if text_eq key [] then out else put out (to_upper (trim_space key)) (trim_space value)

-- The loop of `parseSSDPHeaders`.
unfoldable pub headers_onto : Dict Text → List Text → Dict Text
unfolding with_header cut drop_cr
headers_onto out [] = out
headers_onto out (raw ∷ raws) = headers_onto (with_header out (cut b':' (drop_cr raw))) raws

-- `parseSSDPHeaders`. A datagram is shorter than the limit of the scanner.
unfoldable pub parse_ssdp_headers : Text → Dict Text
unfolding headers_onto lines_onto
parse_ssdp_headers b = headers_onto [] (lines_onto [] b)

-- `strings.Contains`
unfoldable pub contains : Text → Text → Bool
contains [] sub = text_eq sub []
contains (c ∷ cs) sub = is_some (strip_prefix sub (c ∷ cs)) || contains cs sub

unfoldable pub is_wan : Service → Bool
unfolding contains
is_wan s =
    contains s.service_type (codes "WANIPConnection")
    || contains s.service_type (codes "WANPPPConnection")

-- The loop over the services of one device.
unfoldable pub find_service : List Service → Option Service
unfolding is_wan
find_service [] = none
find_service (s ∷ ss) = if is_wan s then some s else find_service ss

abbrev pub or_else : Option Service → Option Service → Option Service
or_else none b = b
or_else (some a) b = some a

-- `findWANConnection`
unfoldable mutual
  unfolding find_service

  pub find_in_device : Device → Option Service
  find_in_device (device ss inner) = or_else (find_service ss) (find_wan_connection inner)

  pub find_wan_connection : Devices → Option Service
  find_wan_connection no_devices = none
  find_wan_connection (more d ds) = or_else (find_in_device d) (find_wan_connection ds)

pub record Net (W : Type 0) : Type 0 where
  -- `http.Get` with the whole body, and `xml.Unmarshal`, to the devices in the list of the root device.
  pub get_body : W → Text → W × Option Text
  pub describe : Text → Option Devices
  -- `base.ResolveReference(ref).String()` of two URLs that can be parsed.
  pub resolve : Text → Text → Option Text
  -- `localIPTo`
  pub local_ip_to : W → List ℕ → Option (List ℕ)
  -- A POST with a body and the header `SOAPAction`: the status, and the body that comes back.
  pub post : W → Text → Text → Text → W × Option (ℤ × Option Text)
  -- The field of the envelope that answers `GetExternalIPAddress`.
  pub external_ip_in : Text → Option Text
  pub ip_text : List ℕ → Text

module _ {W : Type 0} (net : Net W) where
  control_of : Text → Service → Option Text
  control_of location s =
      if is_some (strip_prefix (codes "http") s.control_url)
      then some s.control_url
      else net.resolve location s.control_url

  igd_of : Service → Option Text → Option Igd
  igd_of s none = none
  igd_of s (some url) = some (record { control = url; service = s.service_type; local_ip = none })

  igd_in : Text → Option Devices → Option Igd
  unfolding control_of igd_of find_wan_connection
  igd_in location none = none
  igd_in location (some ds) = elim (find_wan_connection ds) [
    | none ↦ none
    | some s ↦ igd_of s (control_of location s)
  ]

  described : Text → W × Option Text → W × Option Igd
  unfolding igd_in
  described location (w, none) = (w, none)
  described location (w, some body) = (w, igd_in location (net.describe body))

  -- `fetchControlURL`
  unfoldable pub fetch_control_url : W → Text → W × Option Igd
  unfolding described
  fetch_control_url w location = described location (net.get_body w location)

  placed : Option (List ℕ) → Igd → Igd
  placed none igd = igd
  placed (some ip) igd = record igd { local_ip = some ip }

  answered : List ℕ → W × Option Igd → W × Option Igd
  unfolding placed
  answered addr (w, none) = (w, none)
  answered addr (w, some igd) = (w, some (placed (net.local_ip_to w addr) igd))

  located : W → List ℕ → Option Text → W × Option Igd
  unfolding answered fetch_control_url
  located w addr none = (w, none)
  located w addr (some []) = (w, none)
  located w addr (some (c ∷ cs)) = answered addr (fetch_control_url w (c ∷ cs))

  -- What one datagram of the loop of `Discover` gives.
  unfoldable pub on_datagram : W → Text × List ℕ → W × Option Igd
  unfolding located parse_ssdp_headers
  on_datagram w (b, addr) = located w addr (get (parse_ssdp_headers b) (codes "LOCATION"))

  unfoldable pub or_next : W × Option Igd → (W → W × Option Igd) → W × Option Igd
  or_next (w, some igd) next = (w, some igd)
  or_next (w, none) next = next w

  -- The loop of `Discover` over the datagrams that come before the deadline, or before the context ends.
  unfoldable pub discover : W → List (Text × List ℕ) → W × Option Igd
  unfolding on_datagram or_next
  discover w [] = (w, none)
  discover w (x ∷ xs) = or_next (on_datagram w x) (λ v. discover v xs)

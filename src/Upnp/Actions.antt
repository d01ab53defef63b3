-- ===== src/Upnp/Actions.antt =====
-- internal/upnp/upnp.go: the three requests to the gateway.
use gsnet.Common.{
  ℕ, ◌/◌, List, [], ◌∷◌, ◌++◌, Bool, false, Option, none, some, Text, codes, ◌==◌, if◌then◌else◌,
}
use gsnet.Common.Int.{ℤ, pos, negsuc}
use gsnet.Strings.Decimal.{itoa}
use gsnet.Upnp.{Igd, Net}

-- `resp.StatusCode/100 == 2`
unfoldable pub is_success : ℤ → Bool
is_success (pos n) = n / 100 == 2
is_success (negsuc n) = false

pub data Failure : Type 0 where
  no_local_ip unposted empty_answer bad_envelope : Failure
  http_status : ℤ → Failure

-- A line of the bodies, with its newline.
abbrev line : Text → Text → Text
line s rest = s ++ (b'\n' ∷ rest)

-- The envelope around the lines of an action.
unfoldable pub envelope : Text → Text
envelope inner = line (codes "<?xml version=\"1.0\"?>") (
    line
      (codes
        "<s:Envelope xmlns:s=\"http://schemas.xmlsoap.org/soap/envelope/\" s:encodingStyle=\"http://schemas.xmlsoap.org/soap/encoding/\">")
      (line (codes "<s:Body>") (inner ++ line (codes "</s:Body>") (codes "</s:Envelope>"))))

-- `"\"" + g.ServiceType + "#" + action + "\""`
unfoldable pub soap_action : Igd → Text → Text
soap_action g action = codes "\"" ++ (g.service ++ (codes "#" ++ (action ++ codes "\"")))

abbrev tag : Text → Text → Text
tag name value =
    codes "<" ++ (name ++ (codes ">" ++ (value ++ (codes "</" ++ (name ++ codes ">")))))

module _ {W : Type 0} (net : Net W) where
  unfoldable pub add_body : Igd → List ℕ → Text → ℤ → ℤ → Text → ℤ → Text
  unfolding envelope
  add_body g ip proto external internal description lease = envelope (
      line (codes "<u:AddPortMapping xmlns:u=\"" ++ (g.service ++ codes "\">")) (
        line (tag (codes "NewRemoteHost") []) (
          line (tag (codes "NewExternalPort") (itoa external)) (
            line (tag (codes "NewProtocol") proto) (
              line (tag (codes "NewInternalPort") (itoa internal)) (
                line (tag (codes "NewInternalClient") (net.ip_text ip)) (
                  line (tag (codes "NewEnabled") (codes "1")) (
                    line (tag (codes "NewPortMappingDescription") description) (
                      line (tag (codes "NewLeaseDuration") (itoa lease))
                        (line (codes "</u:AddPortMapping>") []))))))))))

  status_only : W × Option (ℤ × Option Text) → W × Option Failure
  unfolding is_success
  status_only (w, none) = (w, some unposted)
  status_only (w, some (status, body)) =
      (w, if is_success status then none else some (http_status status))

  -- `AddPortMapping`, with its error.
  unfoldable pub add_port_mapping : W → Igd → Text → ℤ → ℤ → Text → ℤ → W × Option Failure
  unfolding add_body soap_action status_only
  add_port_mapping w g proto external internal description lease = elim g.local_ip [
    | none ↦ (w, some no_local_ip)
    | some ip ↦ status_only (
        net.post w g.control (add_body g ip proto external internal description lease)
          (soap_action g (codes "AddPortMapping")))
  ]

  -- `DeletePortMapping`, with its error.
  unfoldable pub delete_port_mapping : W → Igd → Text → ℤ → W × Option Failure
  unfolding envelope soap_action status_only
  delete_port_mapping w g proto external =
      let body = envelope (
        line (codes "<u:DeletePortMapping xmlns:u=\"" ++ (g.service ++ codes "\">")) (
          line (tag (codes "NewRemoteHost") []) (
            line (tag (codes "NewExternalPort") (itoa external)) (
              line (tag (codes "NewProtocol") proto)
                (line (codes "</u:DeletePortMapping>") []))))) in
      status_only (net.post w g.control body (soap_action g (codes "DeletePortMapping")))

  pub data External : Type 0 where
    failed : Failure → External
    external : Text → External

  in_envelope : Option Text → External
  in_envelope none = failed bad_envelope
  in_envelope (some []) = failed empty_answer
  in_envelope (some (c ∷ cs)) = external (c ∷ cs)

  -- A body that cannot be read is what was read of it; here it is empty.
  body_or_empty : Option Text → Text
  body_or_empty none = []
  body_or_empty (some b) = b

  answer_ip : W × Option (ℤ × Option Text) → W × External
  unfolding in_envelope body_or_empty is_success
  answer_ip (w, none) = (w, failed unposted)
  answer_ip (w, some (status, body)) = (
    w,
    if is_success status
        then in_envelope (net.external_ip_in (body_or_empty body))
        else failed (http_status status),
  )

  -- `GetExternalIPAddress`
  unfoldable pub get_external_ip_address : W → Igd → W × External
  unfolding envelope soap_action answer_ip
  get_external_ip_address w g =
      let body = envelope (
        line
          (codes "<u:GetExternalIPAddress xmlns:u=\""
            ++ (g.service ++ codes "\"></u:GetExternalIPAddress>"))
          []) in
      answer_ip (net.post w g.control body (soap_action g (codes "GetExternalIPAddress")))

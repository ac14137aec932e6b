-- ===== src/Vnc/Transport.antt =====
-- local-agent/pkg/vnc/transport.go: the transport that an endpoint's address calls for.
use conduit_bmc.Base.{
  if◌then◌else◌, Text, str, is_empty, after_prefix, Bool, true, false, not, ◌||◌, Option, none,
  some,
}
use conduit_bmc.Discovery.Metadata.{contains}

pub data EndpointType : Type 0 where
  type_unknown type_native type_websocket : EndpointType

-- The TLS settings are whether it is enabled and whether certificates are left unverified.
pub record Endpoint : Type 0 where
  pub endpoint : Text
  pub username : Text
  pub password : Text
  pub tls : Option (Bool × Bool)

abbrev has_prefix : Text → Text → Bool
has_prefix p t = elim (after_prefix p t) [ none ↦ false | some rest ↦ true ]

unfoldable pub detect_transport_type : Text → EndpointType
detect_transport_type endpoint =
    if has_prefix (str "ws://") endpoint || has_prefix (str "wss://") endpoint
    then type_websocket
    else if has_prefix (str "vnc://") endpoint || not (contains (str "://") endpoint)
    then type_native
    else type_unknown

-- None stands for the errors on an empty or an unknown address.
unfoldable pub new_transport : Endpoint → Option EndpointType
unfolding detect_transport_type
new_transport e = if is_empty e.endpoint then none else elim (detect_transport_type e.endpoint) [
  | type_unknown ↦ none
  | type_native ↦ some type_native
  | type_websocket ↦ some type_websocket
]

-- ===== src/LocalAgent/Bmc.antt =====
-- local-agent/pkg/bmc/client.go: which client a call goes to. The clients of IPMI and Redfish are
-- parameters, and may be nil.
use conduit_bmc.Base.{
  if◌then◌else◌, Text, same, Result, ok, err, Bool, true, false, Option, none, some, List, [], ◌∷◌,
}
use conduit_bmc.Types.Endpoints.{BmcControlEndpoint, bmc_ipmi, bmc_redfish}
use conduit_bmc.Types.Server.{Server, get_primary_control_endpoint}
use conduit_bmc.Types.Discovery.{DiscoveryMetadata}
use conduit_bmc.Gateway.Power.{Operation}

-- `client operation endpoint username password`; the text of a power state, empty for the rest.
abbrev pub Client : Type 0
Client = Operation → Text → Text → Text → Result Text Text

pub record Clients : Type 0 where
  pub ipmi : Option Client
  pub redfish : Option Client

pub data Error : Type 0 where
  no_control_endpoint no_primary_endpoint ipmi_client_nil redfish_client_nil : Error
  unsupported_type : Text → Error
  operation_failed : Text → Error

abbrev client_failed : Result Text Text → Result Error Text
client_failed (ok t) = ok t
client_failed (err t) = err (operation_failed t)

-- The statements that the power calls share.
unfoldable pub call : Clients → Operation → BmcControlEndpoint → Result Error Text
call clients operation e =
    if same e.bmc_type bmc_ipmi
    then elim clients.ipmi [
      | none ↦ err ipmi_client_nil
      | some client ↦ client_failed (client operation e.endpoint e.username e.password)
    ]
    else if same e.bmc_type bmc_redfish
    then elim clients.redfish [
      | none ↦ err redfish_client_nil
      | some client ↦ client_failed (client operation e.endpoint e.username e.password)
    ]
    else err (unsupported_type e.bmc_type)

abbrev no_endpoint : List BmcControlEndpoint → Bool
no_endpoint [] = true
no_endpoint (e ∷ es) = false

unfoldable pub primary_call : Clients → Operation → Server DiscoveryMetadata → Result Error Text
unfolding call
primary_call clients operation server = elim (get_primary_control_endpoint server) [
  | none ↦ err no_primary_endpoint
  | some e ↦ call clients operation e
]

-- A reset does not ask first whether there are any endpoints, the others do.
unfoldable pub guarded_call : Clients → Operation → Server DiscoveryMetadata → Result Error Text
unfolding primary_call
guarded_call clients operation server =
    if no_endpoint server.control_endpoints
    then err no_control_endpoint
    else primary_call clients operation server

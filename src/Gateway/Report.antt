-- ===== src/Gateway/Report.antt =====
-- gateway/internal/gateway/handler.go: what a gateway tells the manager, of itself and of the BMCs that
-- its agents reach. The test mode, which reports nothing, is left out.
pub mod Shown
mod Tests
use conduit_bmc.Base.{
  if◌then◌else◌, Text, str, same, Map, ◌+◌, ◌-◌, ◌/◌, Bool, false, ◌||◌, List, [], ◌∷◌, ◌++◌,
}
use conduit_bmc.Types.Endpoints.{bmc_ipmi, bmc_redfish}
use conduit_bmc.Types.Discovery.Proto.{convert_to_proto}
use conduit_bmc.Agents.{Info, list}
use conduit_bmc.Gateway.{AgentBmcMapping, Gateway}
use conduit_bmc.Manager.Messages.{ProtoBmcType, ipmi_bmc, redfish_bmc, unspecified_bmc}
use conduit_bmc.Manager.Report.{BmcEndpointAvailability}
use conduit_bmc.Manager.Status.{RegisterGatewayRequest}

unfoldable pub convert_bmc_type_to_manager_proto : Text → ProtoBmcType
convert_bmc_type_to_manager_proto t =
    if same t bmc_ipmi
    then ipmi_bmc
    else if same t bmc_redfish
    then redfish_bmc
    else unspecified_bmc

unfoldable pub availability_of : AgentBmcMapping → BmcEndpointAvailability
unfolding convert_bmc_type_to_manager_proto convert_to_proto
availability_of mapping = record {
  bmc_endpoint = mapping.bmc_endpoint;
  datacenter_id = mapping.datacenter_id;
  bmc_type = convert_bmc_type_to_manager_proto mapping.bmc_type;
  features = mapping.features;
  status = mapping.status;
  username = mapping.username;
  capabilities = mapping.capabilities;
  discovery_metadata = convert_to_proto mapping.discovery_metadata;
}

-- The loop of `reportEndpointsToManager`.
unfoldable pub endpoints_of : Map AgentBmcMapping → List BmcEndpointAvailability
unfolding availability_of
endpoints_of [] = []
endpoints_of ((address, mapping) ∷ m) = availability_of mapping ∷ endpoints_of m

-- The loop of `getDatacenterIDs` over the registered agents, which keeps each id once.
unfoldable pub add_datacenters : List Info → List Text → List Text
add_datacenters [] ids = ids
add_datacenters (agent ∷ agents) ids =
    add_datacenters agents
      (if listed agent.datacenter_id ids then ids else ids ++ (agent.datacenter_id ∷ []))
  where
    listed : Text → List Text → Bool
    listed d [] = false
    listed d (i ∷ is) = same i d || listed d is

unfoldable pub get_datacenter_ids : Gateway → List Text
unfolding add_datacenters list
get_datacenter_ids g = elim (add_datacenters (list g.agent_registry) []) [
  | [] ↦ str "dc-test-01" ∷ []
  | i ∷ is ↦ i ∷ is
]

-- What `registerGatewayWithManager` sends; the address is fixed in the code.
unfoldable pub gateway_registration : Text → Text → Gateway → RegisterGatewayRequest
unfolding get_datacenter_ids
gateway_registration gateway_id region g = record {
  gateway_id = gateway_id;
  region = region;
  endpoint = str "http://localhost:8081";
  datacenter_ids = get_datacenter_ids g;
}

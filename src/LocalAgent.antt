-- ===== src/LocalAgent.antt =====
-- local-agent/internal/agent/agent.go: what the agent keeps, and what it tells the gateway. Of a
-- registration the fields are modelled that the gateway keeps of it; the gateway's answer is given.
pub mod Bmc
pub mod Loop
pub mod Reached
pub mod Rpc
pub mod Stream
mod Tests
use conduit_bmc.Base.{
  if◌then◌else◌, Text, str, same, Map, insert, Bool, true, false, Option, none, some, List, [], ◌∷◌,
  map,
}
use conduit_bmc.Types.Endpoints.{BmcControlEndpoint}
use conduit_bmc.Types.Server.{Server, get_primary_control_endpoint}
use conduit_bmc.Types.Identity.{generate_server_id_from_bmc_endpoint}
use conduit_bmc.Types.Discovery.{DiscoveryMetadata}
use conduit_bmc.Types.Discovery.Proto.{convert_to_proto}
use conduit_bmc.Gateway.Register.{
  ProtoBmcType, unspecified, ipmi, redfish, ControlEndpoint, EndpointReport, RegisterAgentRequest,
}

pub record AgentConfig : Type 0 where
  pub id : Text
  pub datacenter_id : Text
  pub endpoint : Text

pub record LocalAgent : Type 0 where
  pub discovered_servers : Map (Server DiscoveryMetadata)
  pub registered : Bool

-- The loop that indexes a server by its own id and by the id that the manager makes of its address.
unfoldable pub index_servers :
    Text
    → List (Server DiscoveryMetadata)
    → Map (Server DiscoveryMetadata)
    → Map (Server DiscoveryMetadata)
index_servers datacenter_id [] m = m
index_servers datacenter_id (s ∷ ss) m =
    index_servers datacenter_id ss (elim (get_primary_control_endpoint s) [
      | some e ↦
          insert (generate_server_id_from_bmc_endpoint datacenter_id e.endpoint) s (insert s.id s m)
      | none ↦ insert s.id s m
    ])

unfoldable pub proto_type : Text → ProtoBmcType
proto_type t =
    if same t (str "ipmi") then ipmi else if same t (str "redfish") then redfish else unspecified

unfoldable pub control_report : BmcControlEndpoint → ControlEndpoint
unfolding proto_type
control_report e = record {
  endpoint = e.endpoint;
  bmc_type = proto_type e.bmc_type;
  username = e.username;
  capabilities = e.capabilities;
}

unfoldable pub server_report : Server DiscoveryMetadata → EndpointReport
unfolding control_report convert_to_proto
server_report s = record {
  server_id = s.id;
  features = s.features;
  status = s.status;
  metadata = s.metadata;
  control_endpoints = map (λ e. some (control_report e)) s.control_endpoints;
  discovery_metadata = convert_to_proto s.discovery_metadata;
}

unfoldable pub registration : AgentConfig → List (Server DiscoveryMetadata) → RegisterAgentRequest
unfolding server_report
registration config servers = record {
  agent_id = config.id;
  datacenter_id = config.datacenter_id;
  endpoint = config.endpoint;
  bmc_endpoints = map server_report servers;
}

-- The servers that the discovery found are kept in a new index, also when the gateway does not accept
-- the registration. A discovery that failed changes nothing.
unfoldable pub discover_and_register :
    AgentConfig
    → Option (List (Server DiscoveryMetadata))
    → (RegisterAgentRequest → Bool)
    → LocalAgent
    → Bool × LocalAgent
unfolding index_servers registration
discover_and_register config none accepts agent = (false, agent)
discover_and_register config (some servers) accepts agent =
    let indexed = record agent {
      discovered_servers = index_servers config.datacenter_id servers [];
    } in
    if accepts (registration config servers)
    then (true, record indexed { registered = true })
    else (false, indexed)

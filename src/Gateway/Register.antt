-- ===== src/Gateway/Register.antt =====
-- `RegisterAgent` and `AgentHeartbeat` of gateway/internal/gateway/handler.go: how a gateway learns
-- which agent reaches which BMC. The report to the manager, which runs in the background and does not
-- change the gateway, is Gateway/Report.
pub mod Mapped
use conduit_bmc.Base.{
  ℕ, zero, suc, if◌then◌else◌, Bool, true, false, Option, none, some, List, [], ◌∷◌, ◌++◌, Result,
  ok, err, Text, str, Map, insert, is_empty, length, decimal,
}
use conduit_bmc.Types.Discovery.{ProtoMetadata}
use conduit_bmc.Types.Discovery.Proto.{convert_discovery_metadata_from_proto}
use conduit_bmc.Agents.{Info, register, update_last_seen, get}
use conduit_bmc.Gateway.{AgentBmcMapping, Gateway, Failure, agent_not_found}

-- commonv1.BMCType.
pub data ProtoBmcType : Type 0 where
  unspecified ipmi redfish : ProtoBmcType

unfoldable pub convert_proto_bmc_type : ProtoBmcType → Text
convert_proto_bmc_type ipmi = str "ipmi"
convert_proto_bmc_type redfish = str "redfish"
convert_proto_bmc_type unspecified = str "ipmi"

pub record ControlEndpoint : Type 0 where
  pub endpoint : Text
  pub bmc_type : ProtoBmcType
  pub username : Text
  pub capabilities : List Text

-- One server of an agent's report; a control endpoint may be a nil pointer.
pub record EndpointReport : Type 0 where
  pub server_id : Text
  pub features : List Text
  pub status : Text
  pub metadata : Map Text
  pub control_endpoints : List (Option ControlEndpoint)
  pub discovery_metadata : Option ProtoMetadata

pub record RegisterAgentRequest : Type 0 where
  pub agent_id : Text
  pub datacenter_id : Text
  pub endpoint : Text
  pub bmc_endpoints : List EndpointReport

pub record RegisterAgentResponse : Type 0 where
  pub success : Bool
  pub message : Text

pub record AgentHeartbeatRequest : Type 0 where
  pub agent_id : Text
  pub bmc_endpoints : List EndpointReport

pub record AgentHeartbeatResponse : Type 0 where
  pub success : Bool
  pub heartbeat_interval_seconds : ℕ

-- The agent that a report comes from, and when.
pub record Reporter : Type 0 where
  pub agent_id : Text
  pub datacenter_id : Text
  pub now : ℕ

-- The mapping that the inner loop stores.
unfoldable pub mapping_of : Reporter → EndpointReport → ControlEndpoint → AgentBmcMapping
unfolding convert_discovery_metadata_from_proto
mapping_of by server control = record {
  server_id = server.server_id;
  bmc_endpoint = control.endpoint;
  agent_id = by.agent_id;
  datacenter_id = by.datacenter_id;
  bmc_type = convert_proto_bmc_type control.bmc_type;
  features = server.features;
  status = server.status;
  last_seen = by.now;
  metadata = server.metadata;
  username = control.username;
  capabilities = control.capabilities;
  discovery_metadata = convert_discovery_metadata_from_proto server.discovery_metadata;
}

-- The body of the inner loop: a nil pointer and an empty address are passed over.
unfoldable pub map_control :
    Reporter → EndpointReport → Option ControlEndpoint → Map AgentBmcMapping → Map AgentBmcMapping
map_control by server none m = m
map_control by server (some control) m =
    if is_empty control.endpoint
    then m
    else insert control.endpoint (mapping_of by server control) m

unfoldable pub map_controls :
    Reporter
    → EndpointReport
    → List (Option ControlEndpoint)
    → Map AgentBmcMapping
    → Map AgentBmcMapping
map_controls by server [] m = m
map_controls by server (c ∷ cs) m = map_controls by server cs (map_control by server c m)

unfoldable pub map_servers :
    Reporter → List EndpointReport → Map AgentBmcMapping → Map AgentBmcMapping
map_servers by [] m = m
map_servers by (server ∷ servers) m =
    map_servers by servers (map_controls by server server.control_endpoints m)

unfoldable pub register_agent : ℕ → RegisterAgentRequest → Gateway → RegisterAgentResponse × Gateway
register_agent now req g = (
  response,
  record g {
    agent_registry = register info g.agent_registry;
    bmc_endpoint_mapping = map_servers by req.bmc_endpoints g.bmc_endpoint_mapping;
  },
)
  where
    info : Info
    info = record {
      id = req.agent_id;
      datacenter_id = req.datacenter_id;
      endpoint = req.endpoint;
      last_seen = now;
      status = [];
    }

    by : Reporter
    by = record { agent_id = req.agent_id; datacenter_id = req.datacenter_id; now = now }

    response : RegisterAgentResponse
    response = record {
      success = true;
      message =
          str "Agent "
          ++ (req.agent_id
              ++ (str " registered successfully with "
                  ++ (decimal (length req.bmc_endpoints) ++ str " BMC endpoints")));
    }

-- The part of `AgentHeartbeat` behind the lookup of the agent.
unfoldable pub report :
    ℕ
    → AgentHeartbeatRequest
    → Gateway
    → Option Info
    → Result Failure AgentHeartbeatResponse × Gateway
report now req g none = (err (agent_not_found req.agent_id), g)
report now req g (some agent) = (
  ok (record { success = true; heartbeat_interval_seconds = 30 }),
  record g { bmc_endpoint_mapping = map_servers by req.bmc_endpoints g.bmc_endpoint_mapping },
)
  where
    by : Reporter
    by = record { agent_id = req.agent_id; datacenter_id = agent.datacenter_id; now = now }

unfoldable pub agent_heartbeat :
    ℕ → AgentHeartbeatRequest → Gateway → Result Failure AgentHeartbeatResponse × Gateway
unfolding report
agent_heartbeat now req g =
    let registry = update_last_seen req.agent_id now g.agent_registry in
    report now req (record g { agent_registry = registry }) (get req.agent_id registry)

-- ===== src/Manager/Messages.antt =====
-- The messages of the manager's protocol, and how manager_handlers.go converts what is stored to them.
-- A number that an enum does not name is treated as its unspecified value. An int is its bit pattern.
use conduit_bmc.Base.{if◌then◌else◌, Text, same, Map, ℕ, ◌%◌, ◌^◌, Option, List, map}
use mathlib.Core.Option
use conduit_bmc.Types.Endpoints.{
  TlsConfig, BmcControlEndpoint, SolConfig, SolEndpoint, VncConfig, VncEndpoint, bmc_ipmi,
  bmc_redfish, sol_ipmi, sol_redfish_serial, vnc_native, vnc_websocket,
}
use conduit_bmc.Types.Server.{Server}
use conduit_bmc.Types.Discovery.{DiscoveryMetadata, ProtoMetadata}
use conduit_bmc.Manager.Discovery.{convert_models_to_proto_discovery_metadata}

-- commonv1.BMCType, commonv1.SOLType and commonv1.VNCType.
pub data ProtoBmcType : Type 0 where
  unspecified_bmc ipmi_bmc redfish_bmc : ProtoBmcType

pub data ProtoSolType : Type 0 where
  unspecified_sol ipmi_sol redfish_serial_sol : ProtoSolType

pub data ProtoVncType : Type 0 where
  unspecified_vnc native_vnc websocket_vnc : ProtoVncType

unfoldable pub convert_bmc_type_to_proto : Text → ProtoBmcType
convert_bmc_type_to_proto t =
    if same t bmc_ipmi
    then ipmi_bmc
    else if same t bmc_redfish
    then redfish_bmc
    else unspecified_bmc

unfoldable pub convert_sol_type_to_proto : Text → ProtoSolType
convert_sol_type_to_proto t =
    if same t sol_ipmi
    then ipmi_sol
    else if same t sol_redfish_serial
    then redfish_serial_sol
    else unspecified_sol

unfoldable pub convert_vnc_type_to_proto : Text → ProtoVncType
convert_vnc_type_to_proto t =
    if same t vnc_native
    then native_vnc
    else if same t vnc_websocket
    then websocket_vnc
    else unspecified_vnc

pub record ProtoControlEndpoint : Type 0 where
  pub endpoint : Text
  pub bmc_type : ProtoBmcType
  pub username : Text
  pub password : Text
  pub tls : Option TlsConfig
  pub capabilities : List Text

pub record ProtoSolEndpoint : Type 0 where
  pub sol_type : ProtoSolType
  pub endpoint : Text
  pub username : Text
  pub password : Text
  pub config : Option SolConfig

pub record ProtoVncEndpoint : Type 0 where
  pub vnc_type : ProtoVncType
  pub endpoint : Text
  pub username : Text
  pub password : Text
  pub config : Option VncConfig

pub record ProtoServer : Type 0 where
  pub id : Text
  pub customer_id : Text
  pub datacenter_id : Text
  pub features : List Text
  pub status : Text
  pub created_at : ℕ
  pub updated_at : ℕ
  pub metadata : Map Text
  pub discovery_metadata : Option ProtoMetadata
  pub control_endpoints : List ProtoControlEndpoint
  pub primary_protocol : ProtoBmcType
  pub sol_endpoint : Option ProtoSolEndpoint
  pub vnc_endpoint : Option ProtoVncEndpoint

abbrev int32 : ℕ → ℕ
int32 n = n % 2 ^ 32

unfoldable pub convert_tls : TlsConfig → TlsConfig
convert_tls t = record {
  enabled = t.enabled;
  insecure_skip_verify = t.insecure_skip_verify;
  ca_cert = t.ca_cert;
}

unfoldable pub convert_control_endpoint : BmcControlEndpoint → ProtoControlEndpoint
unfolding convert_tls convert_bmc_type_to_proto
convert_control_endpoint e = record {
  endpoint = e.endpoint;
  bmc_type = convert_bmc_type_to_proto e.bmc_type;
  username = e.username;
  password = e.password;
  tls = Option.map convert_tls e.tls;
  capabilities = e.capabilities;
}

unfoldable pub convert_sol_config : SolConfig → SolConfig
convert_sol_config c = record {
  baud_rate = int32 c.baud_rate;
  flow_control = c.flow_control;
  timeout_seconds = int32 c.timeout_seconds;
}

unfoldable pub convert_sol_endpoint : SolEndpoint → ProtoSolEndpoint
unfolding convert_sol_config convert_sol_type_to_proto
convert_sol_endpoint e = record {
  sol_type = convert_sol_type_to_proto e.sol_type;
  endpoint = e.endpoint;
  username = e.username;
  password = e.password;
  config = Option.map convert_sol_config e.config;
}

unfoldable pub convert_vnc_config : VncConfig → VncConfig
convert_vnc_config c = record {
  protocol = c.protocol;
  path = c.path;
  display = int32 c.display;
  read_only = c.read_only;
}

-- The TLS settings of a VNC endpoint are not passed on.
unfoldable pub convert_vnc_endpoint : VncEndpoint → ProtoVncEndpoint
unfolding convert_vnc_config convert_vnc_type_to_proto
convert_vnc_endpoint e = record {
  vnc_type = convert_vnc_type_to_proto e.vnc_type;
  endpoint = e.endpoint;
  username = e.username;
  password = e.password;
  config = Option.map convert_vnc_config e.config;
}

-- The same statements in `GetServer` and in the loop of `ListServers`.
unfoldable pub convert_server : Server DiscoveryMetadata → ProtoServer
unfolding convert_control_endpoint convert_sol_endpoint convert_vnc_endpoint
convert_server s = record {
  id = s.id;
  customer_id = s.customer_id;
  datacenter_id = s.datacenter_id;
  features = s.features;
  status = s.status;
  created_at = s.created_at;
  updated_at = s.updated_at;
  metadata = s.metadata;
  discovery_metadata = convert_models_to_proto_discovery_metadata s.discovery_metadata;
  control_endpoints = map convert_control_endpoint s.control_endpoints;
  primary_protocol = convert_bmc_type_to_proto s.primary_protocol;
  sol_endpoint = Option.map convert_sol_endpoint s.sol_endpoint;
  vnc_endpoint = Option.map convert_vnc_endpoint s.vnc_endpoint;
}

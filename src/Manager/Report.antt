-- ===== src/Manager/Report.antt =====
-- manager/internal/manager/manager_handlers.go: the BMC addresses that gateways report.
pub mod Served
pub mod Written
use conduit_bmc.Base.{Text, str, Result, ok, err, ℕ, Option, none, List, [], ◌∷◌}
use conduit_bmc.Types.Endpoints.{BmcControlEndpoint}
use conduit_bmc.Types.Server.{Server}
use conduit_bmc.Types.Identity.{generate_server_id_from_bmc_endpoint}
use conduit_bmc.Types.Discovery.{DiscoveryMetadata, ProtoMetadata}
use conduit_bmc.Manager.Discovery.{convert_proto_to_models_discovery_metadata}
use conduit_bmc.Manager.Sql.{Engine, Fault, not_found, database_error}
use conduit_bmc.Manager.Models.{ServerLocation}
use conduit_bmc.Manager.Database.{BunDb}
use conduit_bmc.Manager.Database.Servers
use conduit_bmc.Manager.Database.Locations
use conduit_bmc.Manager.Messages.{ProtoBmcType}
use conduit_bmc.Manager.Servers.{bmc_type_or_ipmi, sol_endpoint_for, vnc_endpoint_for}

-- managerv1.BMCEndpointAvailability, without what only the log reads.
pub record BmcEndpointAvailability : Type 0 where
  pub bmc_endpoint : Text
  pub datacenter_id : Text
  pub bmc_type : ProtoBmcType
  pub features : List Text
  pub status : Text
  pub username : Text
  pub capabilities : List Text
  pub discovery_metadata : Option ProtoMetadata

pub data UpdateError : Type 0 where
  check_failed update_failed create_failed location_failed : UpdateError

unfoldable pub reported_control : BmcEndpointAvailability → BmcControlEndpoint
unfolding bmc_type_or_ipmi
reported_control endpoint = record {
  endpoint = endpoint.bmc_endpoint;
  bmc_type = bmc_type_or_ipmi endpoint.bmc_type;
  username = endpoint.username;
  password = [];
  tls = none;
  capabilities = endpoint.capabilities;
}

unfoldable pub reported_server : ℕ → BmcEndpointAvailability → Server DiscoveryMetadata
unfolding reported_control sol_endpoint_for vnc_endpoint_for bmc_type_or_ipmi
reported_server now endpoint = record {
  id = generate_server_id_from_bmc_endpoint endpoint.datacenter_id endpoint.bmc_endpoint;
  customer_id = str "system";
  datacenter_id = endpoint.datacenter_id;
  control_endpoints = reported_control endpoint ∷ [];
  primary_protocol = bmc_type_or_ipmi endpoint.bmc_type;
  sol_endpoint =
      sol_endpoint_for (bmc_type_or_ipmi endpoint.bmc_type) endpoint.bmc_endpoint endpoint.username
        endpoint.features;
  vnc_endpoint = vnc_endpoint_for endpoint.bmc_endpoint endpoint.username endpoint.features;
  features = endpoint.features;
  status = endpoint.status;
  metadata = [];
  discovery_metadata = convert_proto_to_models_discovery_metadata endpoint.discovery_metadata;
  created_at = now;
  updated_at = now;
}

unfoldable pub reported_location : ℕ → BmcEndpointAvailability → Text → ServerLocation
unfolding reported_control bmc_type_or_ipmi
reported_location now endpoint gateway_id = record {
  server_id = generate_server_id_from_bmc_endpoint endpoint.datacenter_id endpoint.bmc_endpoint;
  customer_id = str "system";
  datacenter_id = endpoint.datacenter_id;
  regional_gateway_id = gateway_id;
  control_endpoints = reported_control endpoint ∷ [];
  primary_protocol = bmc_type_or_ipmi endpoint.bmc_type;
  features = endpoint.features;
  created_at = now;
  updated_at = now;
}

module _ (e : Engine) where
  -- The record of a server that exists is updated, and that of any other created.
  unfoldable pub write_server :
      Server DiscoveryMetadata
      → e.Table Servers.ServerRow
      → Result UpdateError (e.Table Servers.ServerRow)
  write_server server servers = elim (Servers.get e server.id servers) [
    | ok existing ↦ elim (Servers.update e server servers) [
      | ok after ↦ ok after
      | err f ↦ err update_failed
    ]
    | err not_found ↦ elim (Servers.create e server servers) [
      | ok after ↦ ok after
      | err f ↦ err create_failed
    ]
    | err database_error ↦ err check_failed
  ]

  unfoldable pub update_server_with_bmc_endpoint :
      ℕ → BmcEndpointAvailability → Text → BunDb e → Result UpdateError (Unit {0}) × BunDb e
  unfolding reported_server reported_location write_server
  update_server_with_bmc_endpoint now endpoint gateway_id db =
      elim (write_server (reported_server now endpoint) db.servers) [
        | err f ↦ (err f, db)
        | ok servers ↦
            elim (Locations.upsert e (reported_location now endpoint gateway_id) db.locations) [
              | err f ↦ (err location_failed, record db { servers = servers })
              | ok locations ↦ (ok tt, record db { servers = servers; locations = locations })
            ]
      ]

  -- An endpoint that fails is passed over. One reading of the clock stands for those of the loop.
  unfoldable pub report_available_endpoints :
      ℕ → Text → List BmcEndpointAvailability → BunDb e → BunDb e
  unfolding update_server_with_bmc_endpoint
  report_available_endpoints now gateway_id [] db = db
  report_available_endpoints now gateway_id (endpoint ∷ endpoints) db =
      report_available_endpoints now gateway_id endpoints
        (update_server_with_bmc_endpoint now endpoint gateway_id db).1

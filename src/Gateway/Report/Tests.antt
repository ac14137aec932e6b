-- ===== src/Gateway/Report/Tests.antt =====
-- An agent's report on its way to the manager, at concrete inputs.
use conduit_bmc.Base.{Text, str, same, insert, ◌≡◌, refl, true, false, none, some, [], ◌∷◌}
use conduit_bmc.Types.Identity.{generate_server_id_from_bmc_endpoint, replace_all}
use conduit_bmc.Types.Discovery.Proto.{convert_to_proto, convert_discovery_metadata_from_proto}
use conduit_bmc.Auth.Context.{AuthClaims}
use conduit_bmc.Gateway.{Gateway}
use conduit_bmc.Gateway.Register.{
  redfish, RegisterAgentRequest, register_agent, map_servers, map_controls, map_control, mapping_of,
  convert_proto_bmc_type,
}
use conduit_bmc.Gateway.Register.Mapped.{in_report}
use conduit_bmc.Gateway.Report.{availability_of, endpoints_of, convert_bmc_type_to_manager_proto}
use conduit_bmc.Gateway.Report.Shown.{ShowsOne, Written, register_agent-get_server}
use conduit_bmc.Manager.{Context}
use conduit_bmc.Manager.Sample.{
  sample_engine, sample_engine-IsLawful, find_row, insert_row, upsert_row,
}
use conduit_bmc.Manager.Database.{BunDb}
use conduit_bmc.Manager.Database.Servers
use conduit_bmc.Manager.Database.Locations
use conduit_bmc.Manager.Report.{
  reported_server, reported_location, write_server, update_server_with_bmc_endpoint,
  report_available_endpoints,
}

abbrev gateway : Gateway
gateway = record {
  external_endpoint = str "gw";
  agent_registry = [];
  bmc_endpoint_mapping = [];
  console_sessions = [];
}

abbrev request : RegisterAgentRequest
request = record {
  agent_id = str "a1";
  datacenter_id = str "dc";
  endpoint = str "http://a1";
  bmc_endpoints =
      record {
        server_id = str "s1";
        features = str "power" ∷ [];
        status = str "up";
        metadata = [];
        control_endpoints =
            some (record {
              endpoint = str "https://bmc";
              bmc_type = redfish;
              username = str "root";
              capabilities = [];
            })
            ∷ [];
        discovery_metadata = none;
      }
      ∷ [];
}

abbrev registered : Gateway
registered = (register_agent 5 request gateway).1

abbrev db : BunDb sample_engine
db = record {
  servers = [];
  customers = [];
  agents = [];
  gateways = [];
  locations = [];
  sessions = [];
}

abbrev claims : AuthClaims
claims = record { customer_id = str "ann"; email = str "ann"; is_admin = false; jti = [] }

abbrev ctx : Context
ctx = record {
  claims = some claims;
  customer_id = some (str "ann");
  customer_email = some (str "ann");
}

abbrev the_id : Text
the_id = generate_server_id_from_bmc_endpoint (str "dc") (str "https://bmc")

no_failure :
    Written sample_engine sample_engine-IsLawful 6
      (str "g1")
      ctx
      claims
      refl
      the_id
      (endpoints_of registered.bmc_endpoint_mapping)
      db
unfolding endpoints_of availability_of register_agent map_servers map_controls map_control
    mapping_of insert convert_proto_bmc_type convert_bmc_type_to_manager_proto convert_to_proto
    convert_discovery_metadata_from_proto update_server_with_bmc_endpoint write_server Servers.get
    Servers.create Locations.upsert find_row insert_row upsert_row same
    generate_server_id_from_bmc_endpoint replace_all reported_server reported_location
no_failure = (refl, tt)

abbrev after : BunDb sample_engine
after =
    report_available_endpoints sample_engine 6 (str "g1")
      (endpoints_of registered.bmc_endpoint_mapping) db

in_it : in_report (str "https://bmc") request.bmc_endpoints ≡ true
unfolding same
in_it = refl

register_agent-get_server_example :
    ShowsOne sample_engine sample_engine-IsLawful 6
      (str "g1")
      ctx
      claims
      refl
      the_id
      registered.bmc_endpoint_mapping
      after
register_agent-get_server_example =
    register_agent-get_server sample_engine sample_engine-IsLawful 6 (str "g1") ctx claims refl
      the_id 5 request gateway (str "https://bmc") db in_it refl no_failure

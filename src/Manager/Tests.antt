-- ===== src/Manager/Tests.antt =====
-- A manager at concrete inputs.
use conduit_bmc.Base.{
  if◌then◌else◌, replicate, Text, str, same, ok, err, ◌≡◌, refl, false, none, some, List, [], ◌∷◌,
  ◌++◌, map, arith,
}
use conduit_bmc.Types.Server.{Server}
use conduit_bmc.Types.Identity.{generate_server_id_from_bmc_endpoint, replace_all}
use conduit_bmc.Types.Discovery.{DiscoveryMetadata}
use conduit_bmc.Auth.Context.{ServerContext, AuthClaims}
use conduit_bmc.Auth.Crypto.{Crypto}
use conduit_bmc.Auth.Sample.{sample, sample-IsLawful}
use conduit_bmc.Auth.Token.{create_server_context}
use conduit_bmc.Gateway
use conduit_bmc.Manager.{Context, register_location_failed}
use conduit_bmc.Manager.Sample.{
  sample_engine, sample_engine-IsLawful, find_row, insert_row, upsert_row,
}
use conduit_bmc.Manager.Models.{RegionalGateway, ServerLocation}
use conduit_bmc.Manager.Database.{BunDb}
use conduit_bmc.Manager.Database.Servers
use conduit_bmc.Manager.Database.Locations
use conduit_bmc.Manager.Database.Locations.{ServerLocationRow}
use conduit_bmc.Manager.Database.Gateways
use conduit_bmc.Manager.Messages.{redfish_bmc, ipmi_bmc, convert_server}
use conduit_bmc.Manager.Access.{
  AuthenticateResponse, auth_interceptor, authenticate, is_open, is_admin_email,
}
use conduit_bmc.Manager.Access.Login.{auth_interceptor-authenticate}
use conduit_bmc.Manager.Servers.{
  RegisterServerRequest, server_of, register_server, create_record, control_endpoints_of,
  bmc_type_of, get_server, get_server_location, server_permissions,
}
use conduit_bmc.Manager.Servers.Retried.{refusal, register_server_retry}
use conduit_bmc.Manager.Report.{
  BmcEndpointAvailability, reported_server, reported_location, write_server,
  update_server_with_bmc_endpoint,
}
use conduit_bmc.Manager.Report.Served.{id_of, location_response, update_server-get_server}
use conduit_bmc.Manager.Status.{RegisterGatewayRequest, gateway_of, register_gateway}

abbrev request : RegisterServerRequest
request = record {
  server_id = str "s1";
  datacenter_id = str "dc";
  regional_gateway_id = str "g1";
  bmc_protocols =
      record {
        endpoint = str "10.0.0.1";
        bmc_type = ipmi_bmc;
        username = str "root";
        password = [];
        tls = none;
        capabilities = [];
      }
      ∷ [];
  primary_protocol = ipmi_bmc;
  features = str "console" ∷ [];
}

abbrev claims : AuthClaims
claims = record {
  customer_id = str "ann";
  email = str "ann";
  is_admin = false;
  jti = replicate 16 1;
}

abbrev ctx : Context
ctx = record {
  claims = some claims;
  customer_id = some (str "ann");
  customer_email = some (str "ann");
}

abbrev stored : Server DiscoveryMetadata
stored = server_of 3 (str "bob") request []

abbrev gateway : RegionalGateway
gateway = gateway_of 4 (record {
  gateway_id = str "g1";
  region = str "eu";
  endpoint = str "http://g1";
  datacenter_ids = [];
})

-- One server of "bob", one gateway, and the location of a server that has no record.
abbrev db : BunDb sample_engine
db = record {
  servers = Servers.from_model stored ∷ [];
  customers = [];
  agents = [];
  gateways = Gateways.from_model gateway ∷ [];
  locations =
      record {
        server_id = str "s2";
        customer_id = str "bob";
        datacenter_id = str "dc";
        regional_gateway_id = str "g1";
        control_endpoints = [];
        primary_protocol = str "ipmi";
        features = [];
        created_at = 3;
        updated_at = 3;
      }
      ∷ [];
  sessions = [];
}

abbrev context : ServerContext
context = create_server_context 5 stored server_permissions

abbrev crypto : Crypto
crypto = sample context

abbrev procedure : Text
procedure = str "/manager.v1.BMCManagerService/GetServer"

closed : is_open procedure ≡ false
unfolding is_open same
closed = refl

auth_interceptor-authenticate_example :
    (response : AuthenticateResponse) × (authenticate crypto
        (str "key")
        (str "ann" ∷ [])
        5
        5
        5
        (replicate 16 1)
        []
        (str "ann")
      ≡ ok response)
    × (auth_interceptor crypto (str "key") 8 procedure (str "Bearer " ++ response.access_token) ctx
        ≡ ok (record {
          claims = some (record {
            customer_id = str "ann";
            email = str "ann";
            is_admin = is_admin_email (str "ann" ∷ []) (str "ann");
            jti = replicate 16 1;
          });
          customer_id = some (str "ann");
          customer_email = some (str "ann");
        }))
auth_interceptor-authenticate_example =
    auth_interceptor-authenticate crypto (sample-IsLawful context) (str "key") (str "ann" ∷ []) 5 5
      5 (replicate 16 1) [] (str "ann") 8 procedure ctx refl refl (omega arith) closed

abbrev second_request : RegisterServerRequest
second_request = record request { server_id = str "s2" }

abbrev after_failure : BunDb sample_engine
after_failure = (register_server sample_engine 7 ctx second_request db).1

fails :
    register_server sample_engine 7 ctx second_request db
    ≡ (err register_location_failed, after_failure)
unfolding register_server create_record control_endpoints_of bmc_type_of Servers.create
    Locations.create insert_row find_row same server_of Servers.from_model
fails = refl

-- An attempt with other protocols.
abbrev third_request : RegisterServerRequest
third_request = record second_request { bmc_protocols = [] }

register_server_retry_example :
    (s : Server DiscoveryMetadata) × (Servers.get sample_engine (str "s2") after_failure.servers
      ≡ ok s)
    × (register_server sample_engine 9 ctx third_request after_failure
        ≡ (err (refusal sample_engine sample_engine-IsLawful ctx third_request), after_failure))
register_server_retry_example =
    register_server_retry sample_engine sample_engine-IsLawful 7 ctx second_request db after_failure
      9 ctx third_request after_failure fails refl refl

abbrev gateway_procedure : Text
gateway_procedure = str "/gateway.v1.GatewayService/PowerOn"

abbrev reported : BmcEndpointAvailability
reported = record {
  bmc_endpoint = str "10.0.0.2";
  datacenter_id = str "dc";
  bmc_type = redfish_bmc;
  features = str "vnc" ∷ [];
  status = str "up";
  username = str "root";
  capabilities = [];
  discovery_metadata = none;
}

abbrev after_report : BunDb sample_engine
after_report = (update_server_with_bmc_endpoint sample_engine 6 reported (str "g1") db).1

reports :
    update_server_with_bmc_endpoint sample_engine 6 reported (str "g1") db ≡ (ok tt, after_report)
unfolding update_server_with_bmc_endpoint write_server Servers.get Servers.create Locations.upsert
    find_row insert_row upsert_row same server_of generate_server_id_from_bmc_endpoint replace_all
    reported_server reported_location
reports = refl

knows : Gateways.get sample_engine (str "g1") db.gateways ≡ ok gateway
unfolding Gateways.get find_row same gateway_of Gateways.from_model Gateways.to_model
knows = refl

update_server-get_server_example :
    (get_server sample_engine ctx (id_of reported) after_report ≡ (
      if same (id_of reported) (id_of reported)
      then ok (convert_server (reported_server 6 reported))
      else get_server sample_engine ctx (id_of reported) db))
    × (get_server_location sample_engine ctx (id_of reported) after_report ≡ (
        if same (id_of reported) (id_of reported)
        then ok (location_response reported gateway)
        else get_server_location sample_engine ctx (id_of reported) db))
update_server-get_server_example =
    update_server-get_server sample_engine sample_engine-IsLawful 6 reported (str "g1") gateway db
      after_report ctx claims (id_of reported) reports knows refl

abbrev again : RegisterGatewayRequest
again = record {
  gateway_id = str "g1";
  region = str "us";
  endpoint = str "http://g1";
  datacenter_ids = [];
}

abbrev after_again : BunDb sample_engine
after_again = (register_gateway sample_engine 9 again db).1

registers : register_gateway sample_engine 9 again db ≡ (ok (str "g1"), after_again)
unfolding register_gateway Gateways.upsert upsert_row find_row same gateway_of Gateways.from_model
registers = refl

abbrev locations : List ServerLocation
locations = map Locations.to_model db.locations

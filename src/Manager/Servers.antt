-- ===== src/Manager/Servers.antt =====
-- manager/internal/manager/manager_handlers.go: the servers, where they are, and the tokens for them.
pub mod Issued
pub mod Retried
use conduit_bmc.Base.{
  if◌then◌else◌, Text, str, same, Result, ok, err, ◌>>=◌, ◌>>◌, or_fail, ℕ, ◌+◌, Bool, true, false,
  Option, none, some, List, [], ◌∷◌, map,
}
use conduit_bmc.Types.Endpoints.{
  BmcControlEndpoint, SolEndpoint, VncEndpoint, bmc_ipmi, bmc_redfish, sol_ipmi, sol_redfish_serial,
  vnc_native,
}
use conduit_bmc.Types.Server.{Server}
use conduit_bmc.Types.Discovery.{DiscoveryMetadata}
use conduit_bmc.Auth.Context.{AuthClaims}
use conduit_bmc.Auth.Crypto.{Crypto}
use conduit_bmc.Auth.Token.{Customer, hour, generate_server_token}
use conduit_bmc.Manager.{
  Context, Failure, replaced, customer_not_authenticated, no_auth_claims, invalid_bmc_type,
  server_not_found, location_not_found, get_server_failed, list_servers_failed,
  create_server_failed, register_location_failed, gateway_info_failed, generate_server_token_failed,
}
use conduit_bmc.Manager.Sql.{Engine, Fault, not_found, database_error}
use conduit_bmc.Manager.Models.{ServerLocation}
use conduit_bmc.Manager.Database.{BunDb}
use conduit_bmc.Manager.Database.Servers
use conduit_bmc.Manager.Database.Locations
use conduit_bmc.Manager.Database.Gateways
use conduit_bmc.Manager.Messages.{
  ProtoBmcType, unspecified_bmc, ipmi_bmc, redfish_bmc, ProtoControlEndpoint, ProtoServer,
  convert_bmc_type_to_proto, convert_server,
}

-- "server not found" is told apart from the database's own errors.
unfoldable pub get_failure : {A : Type 0} → Text → Result Fault A → Result Failure A
get_failure server_id (ok a) = ok a
get_failure server_id (err not_found) = err (server_not_found server_id)
get_failure server_id (err database_error) = err get_server_failed

unfoldable pub server_permissions : List Text
server_permissions =
    str "power:read" ∷ str "power:write" ∷ str "console:read" ∷ str "console:write" ∷ []

-- The loops over the features that create a console and a VNC endpoint.
unfoldable pub has_feature : Text → List Text → Bool
has_feature feature [] = false
has_feature feature (f ∷ features) = if same f feature then true else has_feature feature features

unfoldable pub sol_endpoint_for : Text → Text → Text → List Text → Option SolEndpoint
unfolding has_feature
sol_endpoint_for primary_protocol endpoint username features =
    if has_feature (str "console") features
    then some (record {
      sol_type = if same primary_protocol bmc_redfish then sol_redfish_serial else sol_ipmi;
      endpoint = endpoint;
      username = username;
      password = [];
      config = none;
    })
    else none

unfoldable pub vnc_endpoint_for : Text → Text → List Text → Option VncEndpoint
unfolding has_feature
vnc_endpoint_for endpoint username features =
    if has_feature (str "vnc") features
    then some (record {
      vnc_type = vnc_native;
      endpoint = endpoint;
      username = username;
      password = [];
      config = none;
      tls = none;
    })
    else none

pub record RegisterServerRequest : Type 0 where
  pub server_id : Text
  pub datacenter_id : Text
  pub regional_gateway_id : Text
  pub bmc_protocols : List ProtoControlEndpoint
  pub primary_protocol : ProtoBmcType
  pub features : List Text

unfoldable pub bmc_type_of : ProtoBmcType → Result Failure Text
bmc_type_of ipmi_bmc = ok bmc_ipmi
bmc_type_of redfish_bmc = ok bmc_redfish
bmc_type_of unspecified_bmc = err invalid_bmc_type

-- IPMI, unless the type is Redfish.
unfoldable pub bmc_type_or_ipmi : ProtoBmcType → Text
bmc_type_or_ipmi redfish_bmc = bmc_redfish
bmc_type_or_ipmi ipmi_bmc = bmc_ipmi
bmc_type_or_ipmi unspecified_bmc = bmc_ipmi

-- The loop over the protocols. The TLS settings of a request are not read.
unfoldable pub control_endpoints_of :
    List ProtoControlEndpoint → Result Failure (List BmcControlEndpoint)
unfolding bmc_type_of
control_endpoints_of [] = ok []
control_endpoints_of (p ∷ ps) =
    let rest = control_endpoints_of ps in
    (bmc_type_of p.bmc_type >>= λ bmc_type. rest >>= λ es. ok (
      record {
        endpoint = p.endpoint;
        bmc_type = bmc_type;
        username = p.username;
        password = p.password;
        tls = none;
        capabilities = p.capabilities;
      }
      ∷ es))

unfoldable pub first_endpoint : List BmcControlEndpoint → Text
first_endpoint [] = []
first_endpoint (e ∷ es) = e.endpoint

unfoldable pub server_of :
    ℕ → Text → RegisterServerRequest → List BmcControlEndpoint → Server DiscoveryMetadata
unfolding bmc_type_or_ipmi sol_endpoint_for vnc_endpoint_for first_endpoint
server_of now customer_id request control_endpoints =
    let primary_protocol = bmc_type_or_ipmi request.primary_protocol in
    let primary_endpoint = first_endpoint control_endpoints in
    record {
      id = request.server_id;
      customer_id = customer_id;
      datacenter_id = request.datacenter_id;
      control_endpoints = control_endpoints;
      primary_protocol = primary_protocol;
      sol_endpoint = sol_endpoint_for primary_protocol primary_endpoint [] request.features;
      vnc_endpoint = vnc_endpoint_for primary_endpoint [] request.features;
      features = request.features;
      status = str "active";
      metadata = [];
      discovery_metadata = none;
      created_at = now;
      updated_at = now;
    }

unfoldable pub location_of :
    ℕ → Text → RegisterServerRequest → List BmcControlEndpoint → ServerLocation
unfolding bmc_type_or_ipmi
location_of now customer_id request control_endpoints = record {
  server_id = request.server_id;
  customer_id = customer_id;
  datacenter_id = request.datacenter_id;
  regional_gateway_id = request.regional_gateway_id;
  control_endpoints = control_endpoints;
  primary_protocol = bmc_type_or_ipmi request.primary_protocol;
  features = request.features;
  created_at = now;
  updated_at = now;
}

pub record LocationResponse : Type 0 where
  pub regional_gateway_id : Text
  pub regional_gateway_endpoint : Text
  pub datacenter_id : Text
  pub primary_protocol : ProtoBmcType
  pub features : List Text

pub record TokenResponse : Type 0 where
  pub token : Text
  pub expires_at : ℕ

module _ (e : Engine) where
  -- Everything up to the location, with the location that is then written.
  unfoldable pub create_record :
      ℕ
      → Context
      → RegisterServerRequest
      → BunDb e
      → Result Failure (e.Table Servers.ServerRow × ServerLocation)
  unfolding control_endpoints_of server_of location_of
  create_record now ctx request db = do
    customer_id ← or_fail ctx.customer_id customer_not_authenticated
    control_endpoints ← control_endpoints_of request.bmc_protocols
    servers ←
        replaced (Servers.create e (server_of now customer_id request control_endpoints) db.servers)
          create_server_failed
    ok (servers, location_of now customer_id request control_endpoints)

  -- The server record is written before the location, and stays when that fails.
  unfoldable pub register_server :
      ℕ → Context → RegisterServerRequest → BunDb e → Result Failure Text × BunDb e
  unfolding create_record
  register_server now ctx request db = elim (create_record now ctx request db) [
    | err f ↦ (err f, db)
    | ok (servers, location) ↦ elim (Locations.create e location db.locations) [
      | err f ↦ (err register_location_failed, record db { servers = servers })
      | ok locations ↦
          (ok request.server_id, record db { servers = servers; locations = locations })
    ]
  ]

  unfoldable pub get_server_location : Context → Text → BunDb e → Result Failure LocationResponse
  get_server_location ctx server_id db = do
    claims ← or_fail ctx.claims no_auth_claims
    location ← replaced (Locations.get e server_id db.locations) (location_not_found server_id)
    gateway ← replaced (Gateways.get e location.regional_gateway_id db.gateways) gateway_info_failed
    ok (record {
      regional_gateway_id = gateway.id;
      regional_gateway_endpoint = gateway.endpoint;
      datacenter_id = location.datacenter_id;
      primary_protocol = convert_bmc_type_to_proto location.primary_protocol;
      features = location.features;
    })

  unfoldable pub get_server : Context → Text → BunDb e → Result Failure ProtoServer
  unfolding get_failure
  get_server ctx server_id db = do
    claims ← or_fail ctx.claims no_auth_claims
    server ← get_failure server_id (Servers.get e server_id db.servers)
    ok (convert_server server)

  -- All servers; the page size that is asked for is not used.
  unfoldable pub list_servers : Context → BunDb e → Result Failure (List ProtoServer)
  list_servers ctx db = do
    claims ← or_fail ctx.claims no_auth_claims
    servers ← replaced (Servers.list_all e db.servers) list_servers_failed
    ok (map convert_server servers)

  -- The server's owner is not compared with the caller. The clock is read once for the context, once
  -- for each time in the token, and once for the response.
  unfoldable pub get_server_token :
      Crypto
      → Text
      → ℕ
      → ℕ
      → ℕ
      → ℕ
      → List ℕ
      → List ℕ
      → Context
      → Text
      → BunDb e
      → Result Failure TokenResponse
  unfolding get_failure server_permissions
  get_server_token c key now iat_time exp_time later nonce uuid ctx server_id db = do
    claims ← or_fail ctx.claims no_auth_claims
    server ← get_failure server_id (Servers.get e server_id db.servers)
    token ←
        replaced
          (generate_server_token c key now iat_time exp_time nonce uuid
            (record {
              id = claims.customer_id;
              email = claims.email;
              api_key = [];
              is_admin = false;
              created_at = 0;
            })
            server server_permissions)
          generate_server_token_failed
    ok (record { token = token; expires_at = later + hour })

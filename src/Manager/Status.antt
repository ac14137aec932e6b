-- ===== src/Manager/Status.antt =====
-- manager/internal/manager/manager_handlers.go: the gateways, and the system's status.
pub mod Counted
pub mod Registered
use conduit_bmc.Base.{
  ◌>>=◌, ◌>>◌, ltb, if◌then◌else◌, length, Text, str, same, is_empty, Map, lookup, insert, Result,
  ok, err, or_fail, ℕ, suc, ◌+◌, ◌%◌, ◌^◌, false, Option, none, some, List, [], ◌∷◌, ◌++◌, map,
}
use conduit_bmc.Types.Server.{Server, get_primary_control_endpoint}
use conduit_bmc.Types.Discovery.{DiscoveryMetadata}
use conduit_bmc.Auth.Crypto.{Crypto}
use conduit_bmc.Auth.Token.{Customer, generate_token}
use conduit_bmc.Manager.{
  Context, Failure, replaced, customer_not_authenticated, register_gateway_failed,
  list_gateways_failed, list_locations_failed, list_servers_failed,
}
use conduit_bmc.Manager.Sql.{Engine}
use conduit_bmc.Manager.Models.{RegionalGateway, ServerLocation}
use conduit_bmc.Manager.Database.{BunDb}
use conduit_bmc.Manager.Database.Servers
use conduit_bmc.Manager.Database.Locations
use conduit_bmc.Manager.Database.Gateways
use conduit_bmc.Manager.Messages.{ProtoBmcType, convert_bmc_type_to_proto}

pub record RegisterGatewayRequest : Type 0 where
  pub gateway_id : Text
  pub region : Text
  pub endpoint : Text
  pub datacenter_ids : List Text

unfoldable pub gateway_of : ℕ → RegisterGatewayRequest → RegionalGateway
gateway_of now request = record {
  id = request.gateway_id;
  region = request.region;
  endpoint = request.endpoint;
  datacenter_ids = request.datacenter_ids;
  status = str "active";
  last_seen = now;
  created_at = now;
}

-- managerv1.RegionalGateway.
pub record ListedGateway : Type 0 where
  pub id : Text
  pub region : Text
  pub endpoint : Text
  pub datacenter_ids : List Text
  pub status : Text
  pub last_seen : ℕ
  pub created_at : ℕ
  pub delegated_token : Text

unfoldable pub in_region : Text → List RegionalGateway → List RegionalGateway
in_region region [] = []
in_region region (g ∷ gs) =
    let rest = in_region region gs in if same g.region region then g ∷ rest else rest

-- What is read when a token is made: the clock twice, and a random id.
pub record Draw : Type 0 where
  pub exp_time : ℕ
  pub iat_time : ℕ
  pub uuid : List ℕ

-- A token that cannot be made is left empty.
unfoldable pub delegated_token : Crypto → Text → Draw → Text → Text
delegated_token c key draw customer_id =
    elim (generate_token c key draw.exp_time draw.iat_time draw.uuid
      (record { id = customer_id; email = []; api_key = []; is_admin = false; created_at = 0 })) [
        | ok token ↦ token
        | err f ↦ []
      ]

-- The loop; `draw i` is read for the gateway at index `i`.
unfoldable pub listed_gateways :
    Crypto → Text → (ℕ → Draw) → Text → ℕ → List RegionalGateway → List ListedGateway
unfolding delegated_token
listed_gateways c key draw customer_id i [] = []
listed_gateways c key draw customer_id i (g ∷ gs) =
    record {
      id = g.id;
      region = g.region;
      endpoint = g.endpoint;
      datacenter_ids = g.datacenter_ids;
      status = g.status;
      last_seen = g.last_seen;
      created_at = g.created_at;
      delegated_token = delegated_token c key (draw i) customer_id;
    }
    ∷ listed_gateways c key draw customer_id (suc i) gs

-- Location and server data, merged.
pub record ServerWithBmc : Type 0 where
  pub server_id : Text
  pub customer_id : Text
  pub datacenter_id : Text
  pub regional_gateway_id : Text
  pub bmc_type : Text
  pub bmc_endpoint : Text
  pub features : List Text
  pub created_at : ℕ
  pub updated_at : ℕ

unfoldable pub server_map :
    List (Server DiscoveryMetadata)
    → Map (Server DiscoveryMetadata)
    → Map (Server DiscoveryMetadata)
server_map [] m = m
server_map (s ∷ ss) m = server_map ss (insert s.id s m)

-- The address and the type of the server's primary endpoint, if there is one.
unfoldable pub bmc_at : ServerLocation → Option (Server DiscoveryMetadata) → Text × Text
bmc_at loc none = ([], loc.primary_protocol)
bmc_at loc (some server) = elim (get_primary_control_endpoint server) [
  | some e ↦ (e.endpoint, e.bmc_type)
  | none ↦ ([], loc.primary_protocol)
]

unfoldable pub with_bmc : Map (Server DiscoveryMetadata) → ServerLocation → ServerWithBmc
unfolding bmc_at
with_bmc servers loc =
    let (bmc_endpoint, bmc_type) = bmc_at loc (lookup loc.server_id servers) in
    record {
      server_id = loc.server_id;
      customer_id = loc.customer_id;
      datacenter_id = loc.datacenter_id;
      regional_gateway_id = loc.regional_gateway_id;
      bmc_type = bmc_type;
      bmc_endpoint = bmc_endpoint;
      features = loc.features;
      created_at = loc.created_at;
      updated_at = loc.updated_at;
    }

-- managerv1.SystemStatusServerEntry, whose one protocol has an address and a type.
pub record StatusServerEntry : Type 0 where
  pub server_id : Text
  pub customer_id : Text
  pub datacenter_id : Text
  pub regional_gateway_id : Text
  pub primary_protocol : ProtoBmcType
  pub features : List Text
  pub created_at : ℕ
  pub updated_at : ℕ
  pub bmc_endpoint : Text
  pub bmc_type : ProtoBmcType

unfoldable pub entry_of : ServerWithBmc → StatusServerEntry
entry_of s = record {
  server_id = s.server_id;
  customer_id = s.customer_id;
  datacenter_id = s.datacenter_id;
  regional_gateway_id = s.regional_gateway_id;
  primary_protocol = convert_bmc_type_to_proto s.bmc_type;
  features = s.features;
  created_at = s.created_at;
  updated_at = s.updated_at;
  bmc_endpoint = s.bmc_endpoint;
  bmc_type = convert_bmc_type_to_proto s.bmc_type;
}

-- The inner loop: the servers of one gateway.
unfoldable pub gateway_servers : Text → List ServerWithBmc → List StatusServerEntry
unfolding entry_of
gateway_servers gateway_id [] = []
gateway_servers gateway_id (s ∷ ss) =
    let rest = gateway_servers gateway_id ss in
    if same s.regional_gateway_id gateway_id then entry_of s ∷ rest else rest

pub record GatewayStatus : Type 0 where
  pub id : Text
  pub region : Text
  pub endpoint : Text
  pub datacenter_ids : List Text
  pub status : Text
  pub last_seen : ℕ
  pub created_at : ℕ
  pub server_count : ℕ
  pub servers : List StatusServerEntry

unfoldable pub status_of : List ServerWithBmc → RegionalGateway → GatewayStatus
unfolding gateway_servers
status_of all_servers g = record {
  id = g.id;
  region = g.region;
  endpoint = g.endpoint;
  datacenter_ids = g.datacenter_ids;
  status = g.status;
  last_seen = g.last_seen;
  created_at = g.created_at;
  server_count = length (gateway_servers g.id all_servers) % 2 ^ 32;
  servers = gateway_servers g.id all_servers;
}

abbrev pub two_minutes : ℕ
two_minutes = 120000000000

-- The gateways seen after `now - 2 * time.Minute`.
unfoldable pub count_active : ℕ → List RegionalGateway → ℕ
count_active now [] = 0
count_active now (g ∷ gs) =
    let rest = count_active now gs in if ltb now (g.last_seen + two_minutes) then suc rest else rest

pub record SystemStatus : Type 0 where
  pub version : Text
  pub started_at : ℕ
  pub status_time : ℕ
  pub total_gateways : ℕ
  pub active_gateways : ℕ
  pub total_servers : ℕ
  pub gateways : List GatewayStatus
  pub servers : List StatusServerEntry

-- `getServiceVersion`, for the version of Go's runtime.
unfoldable pub get_service_version : Text → Text
get_service_version go_version = str "BMC Manager v1.0.0 (Go " ++ (go_version ++ str ")")

-- The part of `GetSystemStatus` behind its three queries.
unfoldable pub system_status :
    Text
    → ℕ
    → ℕ
    → ℕ
    → List RegionalGateway
    → List ServerLocation
    → List (Server DiscoveryMetadata)
    → SystemStatus
unfolding status_of with_bmc server_map count_active get_service_version entry_of
system_status go_version start_time now later gateways locations servers =
    let all_servers = map (with_bmc (server_map servers [])) locations in
    record {
      version = get_service_version go_version;
      started_at = start_time;
      status_time = later;
      total_gateways = length gateways % 2 ^ 32;
      active_gateways = count_active now gateways % 2 ^ 32;
      total_servers = length all_servers % 2 ^ 32;
      gateways = map (status_of all_servers) gateways;
      servers = map entry_of all_servers;
    }

module _ (e : Engine) where
  unfoldable pub register_gateway :
      ℕ → RegisterGatewayRequest → BunDb e → Result Failure Text × BunDb e
  unfolding gateway_of
  register_gateway now request db = elim (Gateways.upsert e (gateway_of now request) db.gateways) [
    | err f ↦ (err register_gateway_failed, db)
    | ok gateways ↦ (ok request.gateway_id, record db { gateways = gateways })
  ]

  unfoldable pub list_gateways :
      Crypto → Text → (ℕ → Draw) → Context → Text → BunDb e → Result Failure (List ListedGateway)
  unfolding in_region listed_gateways
  list_gateways c key draw ctx region db = do
    gateways ← replaced (Gateways.list e db.gateways) list_gateways_failed
    customer_id ← or_fail ctx.customer_id customer_not_authenticated
    ok (
        listed_gateways c key draw customer_id 0
          (if is_empty region then gateways else in_region region gateways))

  unfoldable pub get_system_status : Text → ℕ → ℕ → ℕ → BunDb e → Result Failure SystemStatus
  unfolding system_status
  get_system_status go_version start_time now later db = do
    gateways ← replaced (Gateways.list e db.gateways) list_gateways_failed
    locations ← replaced (Locations.list e db.locations) list_locations_failed
    servers ← replaced (Servers.list_all e db.servers) list_servers_failed
    ok (system_status go_version start_time now later gateways locations servers)

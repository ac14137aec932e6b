-- ===== src/Discovery/Tests.antt =====
-- Discovery at concrete inputs.
use conduit_bmc.Base.{
  length, All, str, same, lookup, insert, ok, err, ◌≤◌, ◌≡◌, refl, true, false, none, some, [], ◌∷◌,
}
use conduit_bmc.Types.Endpoints.{bmc_redfish}
use conduit_bmc.Types.Server.{Server, of_protocol, first_unless, get_primary_control_endpoint}
use conduit_bmc.Types.Discovery.{DiscoveryMetadata, CapabilityInfo}
use conduit_bmc.Discovery.{Network, SerialConsoleInfo}
use conduit_bmc.Discovery.Config.{BmcHost, to_control_endpoint}
use conduit_bmc.Discovery.Static.{
  load_static_server, configured_server, control_endpoints_of, sol_of, vnc_of, configured,
  discover_console, discovered, described, write_back,
}
use conduit_bmc.Discovery.Static.Stale.{load_static_server-stale}
use conduit_bmc.Discovery.Scan.{IpNet, generate_ips_from_subnet}
use conduit_bmc.Discovery.Scan.Bounded.{Scannable, generate_ips_from_subnet_bounds}

abbrev down : Network
down = record {
  parse_url = λ t. none;
  split_host_port = λ t. none;
  discover_serial_console = λ e u p. err (str "timeout");
  ipmi_accessible = λ e. false;
  redfish_accessible = λ e. false;
}

abbrev answer : SerialConsoleInfo
answer = record {
  supported = true;
  vendor = str "Supermicro";
  fallback_to_ipmi = false;
  serial_path = str "/redfish/v1/Managers/1/SerialInterfaces/1";
}

abbrev up : Network
up = record down { discover_serial_console = λ e u p. ok answer }

abbrev host : BmcHost
host = record {
  id = str "h1";
  customer_id = str "ann";
  control_endpoints =
      record {
        endpoint = str "https://bmc";
        bmc_type = bmc_redfish;
        username = str "root";
        password = [];
        tls = none;
        capabilities = [];
      }
      ∷ [];
  sol_endpoint = none;
  vnc_endpoint = none;
  features = [];
  metadata = some [];
}

abbrev server : Server DiscoveryMetadata
server =
    configured host
      (record {
        endpoint = str "https://bmc";
        bmc_type = bmc_redfish;
        username = str "root";
        password = [];
        tls = none;
        capabilities = [];
      }
        ∷ [])
      none none

abbrev timed_out : Server DiscoveryMetadata
timed_out = record server { metadata = (str "discovery_error", str "timeout") ∷ [] }

abbrev first : Server DiscoveryMetadata
first = described down 1 (str "a1") timed_out

abbrev left : BmcHost
left = record host { metadata = some ((str "discovery_error", str "timeout") ∷ []) }

fails : load_static_server down 1 (str "a1") host ≡ some (first, left)
unfolding load_static_server configured_server control_endpoints_of to_control_endpoint sol_of
    vnc_of configured get_primary_control_endpoint of_protocol first_unless same discover_console
    discovered described write_back insert
fails = refl

noted : lookup (str "discovery_error") first.metadata ≡ some (str "timeout")
unfolding lookup described configured same
noted = refl

abbrev again : Server DiscoveryMetadata
again = configured left server.control_endpoints none none

abbrev second : Server DiscoveryMetadata
second = described up 2 (str "a1") (discover_console up (get_primary_control_endpoint again) again)

abbrev last : BmcHost
last = write_back (discover_console up (get_primary_control_endpoint again) again) left

succeeds : load_static_server up 2 (str "a1") left ≡ some (second, last)
unfolding load_static_server configured_server control_endpoints_of to_control_endpoint sol_of
    vnc_of configured
succeeds = refl

load_static_server-stale_example :
    (md : DiscoveryMetadata) × (c : CapabilityInfo) × (second.discovery_metadata ≡ some md)
    × (md.capabilities ≡ some c)
    × (c.discovery_errors ≡ str "timeout" ∷ [])
load_static_server-stale_example =
    load_static_server-stale down up 1 2 (str "a1") (str "timeout") host left last [] first second
      refl fails noted (λ e u p. (answer, refl)) succeeds

abbrev all_hosts : IpNet
all_hosts = record {
  to4 = some (192 ∷ 168 ∷ 1 ∷ 0 ∷ []);
  contains = λ ip. true;
  text = str "192.168.1.0/24";
}

generate_ips_from_subnet_bounds_example :
    (length (generate_ips_from_subnet all_hosts) ≤ 100)
    × All (Scannable all_hosts (192 ∷ 168 ∷ 1 ∷ 0 ∷ [])) (generate_ips_from_subnet all_hosts)
generate_ips_from_subnet_bounds_example =
    generate_ips_from_subnet_bounds all_hosts (192 ∷ 168 ∷ 1 ∷ 0 ∷ []) refl

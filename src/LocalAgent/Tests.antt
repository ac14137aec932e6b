-- ===== src/LocalAgent/Tests.antt =====
-- An agent with one server behind a gateway.
use conduit_bmc.Base.{
  str, same, lookup, insert, ok, ◌≡◌, refl, ◌↔◌, true, false, none, some, [], ◌∷◌,
}
use mathlib.Core.List.{Memᴰ}
use conduit_bmc.Types.Endpoints.{bmc_redfish}
use conduit_bmc.Types.Server.{Server}
use conduit_bmc.Types.Discovery.{DiscoveryMetadata}
use conduit_bmc.Agents.{register, get}
use conduit_bmc.Gateway.{Gateway}
use conduit_bmc.Gateway.Register.{
  register_agent, map_servers, map_controls, map_control, mapping_of,
}
use conduit_bmc.Gateway.Register.Mapped.{in_report}
use conduit_bmc.Gateway.Power.{AgentCall, power_on_op, proxy_power_operation, find_agent}
use conduit_bmc.Discovery.Metadata.{contains}
use conduit_bmc.Types.Endpoints.{VncEndpoint}
use conduit_bmc.Base.{after_prefix, Option, List, ℕ, ◌++◌, arith}
use conduit_bmc.Streaming.{received, send_handshake, send_handshake_ack}
use conduit_bmc.Vnc.Transport.{EndpointType, type_native, Endpoint, new_transport}
use conduit_bmc.LocalAgent.Stream.{stream_vnc_data, vnc_endpoint_of}
use conduit_bmc.LocalAgent.Stream.Lost.{stream_vnc_data-drops, browser_says, agent_says}
use conduit_bmc.LocalAgent.{
  LocalAgent, AgentConfig, registration, server_report, control_report, discover_and_register,
}
use conduit_bmc.LocalAgent.Reached.{proxy_power_operation-discover_and_register}
use conduit_bmc.LocalAgent.Bmc.{Clients}
use conduit_bmc.LocalAgent.Rpc.{power_on, power_off, power_cycle, reset, get_power_status, panics}
use conduit_bmc.LocalAgent.Rpc.Panics.{WithoutEndpoints, power_rpcs-panics}

abbrev config : AgentConfig
config = record { id = str "a1"; datacenter_id = str "dc"; endpoint = str "http://a1" }

abbrev server : Server DiscoveryMetadata
server = record {
  id = str "h1";
  customer_id = str "ann";
  datacenter_id = [];
  control_endpoints =
      record {
        endpoint = str "https://bmc";
        bmc_type = bmc_redfish;
        username = str "root";
        password = [];
        tls = none;
        capabilities = [];
      }
      ∷ [];
  primary_protocol = bmc_redfish;
  sol_endpoint = none;
  vnc_endpoint = none;
  features = [];
  status = str "configured";
  metadata = [];
  discovery_metadata = none;
  created_at = 0;
  updated_at = 0;
}

abbrev agent : LocalAgent
agent = record { discovered_servers = []; registered = false }

abbrev gateway : Gateway
gateway = record {
  external_endpoint = str "gw";
  agent_registry = [];
  bmc_endpoint_mapping = [];
  console_sessions = [];
}

abbrev the_call : AgentCall
the_call = record {
  agent_endpoint = str "http://a1";
  operation = power_on_op;
  server_id = str "h1";
}

in_it : in_report (str "https://bmc") (registration config (server ∷ [])).bmc_endpoints ≡ true
unfolding registration server_report control_report same
in_it = refl

forwards :
    proxy_power_operation
      (register_agent 5 (registration config (server ∷ [])) gateway).1
      (str "https://bmc")
      power_on_op
    ≡ ok the_call
unfolding proxy_power_operation find_agent register_agent registration server_report control_report
    map_servers map_controls map_control mapping_of register get lookup insert same
forwards = refl

proxy_power_operation-discover_and_register_example :
    (str "http://a1" ≡ str "http://a1")
    × (s : Server DiscoveryMetadata) × (lookup
          (str "h1")
          (discover_and_register config (some (server ∷ [])) (λ r. true) agent).1.discovered_servers
        ≡ some s)
    × Memᴰ s (server ∷ [])
proxy_power_operation-discover_and_register_example =
    proxy_power_operation-discover_and_register 5 config (server ∷ []) true agent gateway
      (str "https://bmc") power_on_op the_call in_it forwards

abbrev bare : Server DiscoveryMetadata
bare = record server { control_endpoints = [] }

abbrev without_endpoints : LocalAgent
without_endpoints = record { discovered_servers = (str "h1", bare) ∷ []; registered = true }

abbrev no_clients : Clients
no_clients = record { ipmi = none; redfish = none }

power_rpcs-panics_example :
    ((power_on no_clients (str "h1") without_endpoints ≡ panics)
      ↔ WithoutEndpoints (str "h1") without_endpoints)
    × ((power_off no_clients (str "h1") without_endpoints ≡ panics)
        ↔ WithoutEndpoints (str "h1") without_endpoints)
    × ((power_cycle no_clients (str "h1") without_endpoints ≡ panics)
        ↔ WithoutEndpoints (str "h1") without_endpoints)
    × ((reset no_clients (str "h1") without_endpoints ≡ panics)
        ↔ WithoutEndpoints (str "h1") without_endpoints)
    × ((get_power_status no_clients (str "h1") without_endpoints ≡ panics)
        ↔ WithoutEndpoints (str "h1") without_endpoints)
power_rpcs-panics_example = power_rpcs-panics no_clients (str "h1") without_endpoints

abbrev screen : VncEndpoint
screen = record {
  vnc_type = str "native";
  endpoint = str "10.0.0.3";
  username = [];
  password = str "pw";
  config = none;
  tls = none;
}

abbrev with_screen : LocalAgent
with_screen = record {
  discovered_servers = (str "h1", record server { vnc_endpoint = some screen }) ∷ [];
  registered = true;
}

has_screen :
    lookup (str "h1") with_screen.discovered_servers
    ≡ some (record server { vnc_endpoint = some screen })
unfolding lookup same
has_screen = refl

over_tcp : new_transport (vnc_endpoint_of screen) ≡ some type_native
unfolding new_transport vnc_endpoint_of after_prefix contains
over_tcp = refl

connects : EndpointType → Endpoint → Option (List ℕ)
connects t e = some (1 ∷ 2 ∷ [])

connected : connects type_native (vnc_endpoint_of screen) ≡ some (1 ∷ 2 ∷ [])
unfolding connects
connected = refl

stream_vnc_data-drops_example :
    stream_vnc_data connects
      (received (send_handshake (str "vnc-1") (str "h1")))
      (browser_says (str "vnc-1") (str "h1") 1 (5 ∷ 6 ∷ []) [])
      with_screen
    ≡ ok (record {
      transport = type_native;
      remaining = [];
      sent =
          agent_says (str "vnc-1") (str "h1") (1 ∷ 2 ∷ [])
          ++ (send_handshake_ack (str "vnc-1") (str "h1") ∷ []);
    })
stream_vnc_data-drops_example =
    stream_vnc_data-drops (str "vnc-1") (str "h1") connects with_screen
      (record server { vnc_endpoint = some screen }) screen type_native (1 ∷ 2 ∷ []) 1 (5 ∷ 6 ∷ [])
      [] has_screen refl over_tcp connected (λ e. absurd (ground (arith, e)))

-- ===== src/Gateway/Stream/Tests.antt =====
-- Console streams at one gateway.
use conduit_bmc.Base.{insert, decimal}
use conduit_bmc.Base.{
  if◌then◌else◌, Text, str, same, lookup, ok, ◌≡◌, refl, true, false, none, some, [], ◌∷◌, ◌++◌,
}
use conduit_bmc.Types.Endpoints.{SolEndpoint, sol_ipmi}
use conduit_bmc.Types.Server.{Server}
use conduit_bmc.Types.Discovery.{DiscoveryMetadata}
use conduit_bmc.Agents.{Info, get}
use conduit_bmc.Auth.Context.{ServerContext, AuthClaims, has_permission, listed}
use conduit_bmc.Gateway.{AgentBmcMapping, ConsoleSession, Gateway, Context}
use conduit_bmc.Gateway.Access.{
  Validator, extract_server_context, authorize, from_context, may_use_console,
}
use conduit_bmc.Gateway.Power.{find_agent}
use conduit_bmc.Gateway.Console.{create_sol_session, sol_session, sol_response, store_session}
use conduit_bmc.Streaming.{received, send_handshake, data_chunk, close_chunk}
use conduit_bmc.Gateway.Stream as GatewayStream
use conduit_bmc.Gateway.Stream.{
  Arrival, arrives, ConsoleStream, console_loop, proxy_console_streams, returned,
}
use conduit_bmc.Gateway.Stream.Relayed.{proxy_console_streams-closed}
use conduit_bmc.Gateway.Stream.AnyServer.{stream_console_data-create}
use conduit_bmc.LocalAgent.{LocalAgent}
use conduit_bmc.LocalAgent.Stream as AgentStream
use conduit_bmc.LocalAgent.Stream.{SolStream}

abbrev context_of : Text → ServerContext
context_of customer = record {
  server_id = str "s1";
  customer_id = customer;
  bmc_endpoint = str "10.0.0.1";
  bmc_type = str "ipmi";
  features = [];
  datacenter_id = str "dc";
  permissions = str "power:write" ∷ str "console:access" ∷ [];
  issued_at = 0;
  expires_at = 1000;
}

abbrev someone : AuthClaims
someone = record { customer_id = str "ann"; email = []; is_admin = false; jti = [] }

-- Every token is one of customer "ann".
abbrev accepts : Validator
accepts now t = some (someone, some (context_of (str "ann")))

abbrev with_context : Text → Context
with_context customer = record {
  token = some (str "t");
  claims = none;
  server_context = some (context_of customer);
}

abbrev mapping : AgentBmcMapping
mapping = record {
  server_id = str "s1";
  bmc_endpoint = str "10.0.0.1";
  agent_id = str "a1";
  datacenter_id = str "dc";
  bmc_type = str "redfish";
  features = [];
  status = str "up";
  last_seen = 7;
  metadata = [];
  username = str "root";
  capabilities = [];
  discovery_metadata = none;
}

abbrev agent : Info
agent = record {
  id = str "a1";
  datacenter_id = str "dc";
  endpoint = str "http://agent";
  last_seen = 7;
  status = str "active";
}

abbrev gateway : Gateway
gateway = record {
  external_endpoint = str "gw";
  agent_registry = (str "a1", agent) ∷ [];
  bmc_endpoint_mapping = (str "10.0.0.1", mapping) ∷ [];
  console_sessions = [];
}

abbrev opened : ConsoleSession
opened = sol_session (context_of (str "ann")) mapping (str "s1") 20 21

creates_it :
    create_sol_session accepts 8 20 21 (with_context (str "ann")) (str "s1") gateway
    ≡ ok (sol_response gateway opened, store_session opened gateway)
unfolding create_sol_session authorize from_context extract_server_context same may_use_console
    has_permission listed find_agent get lookup
creates_it = refl

abbrev endpoint : SolEndpoint
endpoint = record {
  sol_type = sol_ipmi;
  endpoint = str "10.0.0.2";
  username = [];
  password = [];
  config = none;
}

-- Another server of the same agent.
abbrev other : Server DiscoveryMetadata
other = record {
  id = str "s2";
  customer_id = str "bob";
  datacenter_id = [];
  control_endpoints = [];
  primary_protocol = [];
  sol_endpoint = some endpoint;
  vnc_endpoint = none;
  features = [];
  status = [];
  metadata = [];
  discovery_metadata = none;
  created_at = 0;
  updated_at = 0;
}

abbrev local_agent : LocalAgent
local_agent = record { discovered_servers = (str "s2", other) ∷ []; registered = true }

-- A second agent stands at any other address, and knows no server.
abbrev agents : Text → LocalAgent
agents address =
    if same address (str "http://agent")
    then local_agent
    else record { discovered_servers = []; registered = true }

stands :
    lookup (sol_response gateway opened).session_id (store_session opened gateway).console_sessions
    ≡ some opened
unfolding lookup same store_session insert sol_session sol_response decimal
stands = refl

runs : get opened.agent_id (store_session opened gateway).agent_registry ≡ some agent
unfolding get lookup same store_session sol_session
runs = refl

at_it : lookup (str "s2") (agents agent.endpoint).discovered_servers ≡ some other
unfolding lookup same
at_it = refl

stream_console_data-create_example :
    (stream : ConsoleStream) × (attachment : SolStream) × (opened.server_id ≡ str "s1")
    × (GatewayStream.stream_console_data 30
          (received (send_handshake (sol_response gateway opened).session_id (str "s2")))
          (λ e. true)
          true
          (store_session opened gateway)
        ≡ ok stream)
    × (stream.agent_endpoint ≡ agent.endpoint)
    × (AgentStream.stream_console_data
          (λ t. true)
          (λ e skips. true)
          true
          (received stream.to_agent)
          (agents stream.agent_endpoint)
        ≡ ok attachment)
    × (attachment.at ≡ endpoint)
stream_console_data-create_example =
    stream_console_data-create accepts 20 21 8 (with_context (str "ann")) (str "s1") gateway
      (sol_response gateway opened) (store_session opened gateway) opened agent 30 (str "s2") agents
      other endpoint creates_it stands runs refl at_it refl

-- A client types and closes; the agent closes in turn.
abbrev typed : Arrival
typed = arrives (data_chunk (str "sol-20") (str "s1") (108 ∷ [])) true

abbrev bye : Arrival
bye = arrives (close_chunk (str "sol-20") (str "s1")) true

passes_on :
    ((data_chunk (str "sol-20") (str "s1") (108 ∷ [])).close_stream ≡ false)
    × ((close_chunk (str "sol-20") (str "s1")).close_stream ≡ true)
unfolding data_chunk close_chunk
passes_on = (refl, refl)

proxy_console_streams-closed_example :
    (console_loop ([] ++ (bye ∷ [])) ≡ returned)
    × (console_loop ((typed ∷ []) ++ (bye ∷ [])) ≡ returned)
    × (proxy_console_streams
          (str "sol-20")
          (str "s1")
          ([] ++ (bye ∷ []))
          ((typed ∷ []) ++ (bye ∷ []))
        ≡ none)
proxy_console_streams-closed_example =
    proxy_console_streams-closed (str "sol-20") (str "s1") [] (typed ∷ []) bye bye [] [] tt
      ((refl, passes_on.0), tt) (refl, passes_on.1) (refl, passes_on.1)

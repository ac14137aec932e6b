-- ===== src/Gateway/Tests.antt =====
-- A gateway with one agent and one BMC, and the theorems about it.
use conduit_bmc.Base.{
  ltb, if◌then◌else◌, Text, str, same, lookup, ok, err, ℕ, ◌≡◌, refl, ◌↔◌, ◌⊎◌, true, false, none,
  some, List, [], ◌∷◌, arith,
}
use conduit_bmc.Agents.{Info, get}
use conduit_bmc.Auth.Context.{ServerContext, AuthClaims, has_permission, listed, manager_claims}
use conduit_bmc.Gateway.{
  AgentBmcMapping, ConsoleSession, Gateway, Context, new_gateway, session_not_found, access_denied,
  no_auth_claims,
}
use conduit_bmc.Types.Endpoints.{BmcControlEndpoint}
use conduit_bmc.Types.Server.{Server, of_protocol, first_unless, get_primary_control_endpoint}
use conduit_bmc.Auth.Token.{create_server_context, bmc_of}
use conduit_bmc.Gateway.Tokens.{get_sol_session_shared}
use conduit_bmc.Gateway.Access.{
  Validator, extract_server_context, token_validation, is_exempt, token_present, authorize,
  from_context, may_use_console,
}
use conduit_bmc.Gateway.Register.{
  redfish, ControlEndpoint, EndpointReport, RegisterAgentRequest, register_agent,
}
use conduit_bmc.Gateway.Register.Mapped.{register_agent-mapping, in_report, MadeFrom, reporter_of}
use conduit_bmc.Gateway.Power.{AgentCall, power_on_op, find_agent}
use conduit_bmc.Gateway.Power.Guarded.{
  call_method, call_method_iff, on, Granted, permission_of, operation_of, target,
}
use conduit_bmc.Gateway.Console.{
  get_sol_session, view_of, get_vnc_session, close_vnc_session, close_sol_session,
  get_console_session_by_id, create_sol_session, sol_session, sol_response, store_session,
}
use conduit_bmc.Gateway.Console.Lifetime.{
  sol, create, deadline, Opened, create-Opened, get_sol_session-create,
}
use conduit_bmc.Gateway.Console.Ownership.{vnc_session-token_validation, close_sol_session-get}
use conduit_bmc.Gateway.Reach.{starts, steps, registers}
use conduit_bmc.Gateway.Reach.Sound.{IsSound}
use conduit_bmc.Gateway.Reach.Preserved.{Reachable-IsSound}

abbrev context_of : Text → ServerContext
context_of customer = record {
  server_id = str "s1";
  customer_id = customer;
  bmc_endpoint = str "10.0.0.1";
  bmc_type = str "ipmi";
  features = [];
  datacenter_id = str "dc";
  permissions = str "power:write" ∷ str "console:access" ∷ [];
  issued_at = 0;
  expires_at = 1000;
}

abbrev someone : AuthClaims
someone = record { customer_id = str "ann"; email = []; is_admin = false; jti = [] }

-- Every token is one of customer "ann".
abbrev accepts : Validator
accepts now t = some (someone, some (context_of (str "ann")))

abbrev with_context : Text → Context
with_context customer = record {
  token = some (str "t");
  claims = none;
  server_context = some (context_of customer);
}

abbrev bare : Context
bare = record { token = some (str "t"); claims = none; server_context = none }

abbrev control : ControlEndpoint
control = record {
  endpoint = str "10.0.0.1";
  bmc_type = redfish;
  username = str "root";
  capabilities = [];
}

abbrev server : EndpointReport
server = record {
  server_id = str "s1";
  features = [];
  status = str "up";
  metadata = [];
  control_endpoints = none ∷ some control ∷ [];
  discovery_metadata = none;
}

abbrev registration : RegisterAgentRequest
registration = record {
  agent_id = str "a1";
  datacenter_id = str "dc";
  endpoint = str "http://agent";
  bmc_endpoints = server ∷ [];
}

abbrev empty_gateway : Gateway
empty_gateway = new_gateway (str "gw")

register_agent-mapping_example :
    ((in_report (str "10.0.0.1") (server ∷ []) ≡ true)
      × MadeFrom (reporter_of 7 registration) (server ∷ []) (str "10.0.0.1") (
          lookup
            (str "10.0.0.1")
            (register_agent 7 registration empty_gateway).1.bmc_endpoint_mapping))
    ⊎ ((in_report (str "10.0.0.1") (server ∷ []) ≡ false)
        × (lookup
              (str "10.0.0.1")
              (register_agent 7 registration empty_gateway).1.bmc_endpoint_mapping
            ≡ lookup (str "10.0.0.1") empty_gateway.bmc_endpoint_mapping))
register_agent-mapping_example =
    register_agent-mapping 7 registration empty_gateway (str "10.0.0.1")

abbrev registered : Gateway
registered = (register_agent 7 registration empty_gateway).1

Reachable-IsSound_example : IsSound registered
Reachable-IsSound_example =
    Reachable-IsSound accepts (steps starts (registers 7 registration empty_gateway))

abbrev mapping : AgentBmcMapping
mapping = record {
  server_id = str "s1";
  bmc_endpoint = str "10.0.0.1";
  agent_id = str "a1";
  datacenter_id = str "dc";
  bmc_type = str "redfish";
  features = [];
  status = str "up";
  last_seen = 7;
  metadata = [];
  username = str "root";
  capabilities = [];
  discovery_metadata = none;
}

abbrev agent : Info
agent = record {
  id = str "a1";
  datacenter_id = str "dc";
  endpoint = str "http://agent";
  last_seen = 7;
  status = str "active";
}

abbrev gateway : Gateway
gateway = record {
  external_endpoint = str "gw";
  agent_registry = (str "a1", agent) ∷ [];
  bmc_endpoint_mapping = (str "10.0.0.1", mapping) ∷ [];
  console_sessions = [];
}

abbrev the_call : AgentCall
the_call = record {
  agent_endpoint = str "http://agent";
  operation = power_on_op;
  server_id = str "s1";
}

call_method_iff_example :
    (call_method accepts on 8 (with_context (str "ann")) (str "s1") gateway ≡ ok the_call)
    ↔ Granted accepts
        (permission_of on)
        (operation_of on)
        (target on)
        8
        (with_context (str "ann"))
        (str "s1")
        gateway
        the_call
call_method_iff_example =
    call_method_iff accepts on 8 (with_context (str "ann")) (str "s1") gateway the_call

of_ann : extract_server_context accepts 8 (with_context (str "ann")) ≡ some (context_of (str "ann"))
unfolding extract_server_context
of_ann = refl

of_bob : extract_server_context accepts 8 (with_context (str "bob")) ≡ some (context_of (str "bob"))
unfolding extract_server_context
of_bob = refl

abbrev opened : ConsoleSession
opened = sol_session (context_of (str "ann")) mapping (str "s1") 20 21

creates_it :
    create accepts (sol 20 21) 8 (with_context (str "ann")) (str "s1") gateway
    ≡ ok (sol_response gateway opened, store_session opened gateway)
unfolding create_sol_session authorize from_context extract_server_context same may_use_console
    has_permission listed find_agent get lookup
creates_it = refl

create-Opened_example :
    Opened accepts
      (sol 20 21)
      8
      (with_context (str "ann"))
      (str "s1")
      gateway
      (sol_response gateway opened)
      (store_session opened gateway)
create-Opened_example =
    create-Opened accepts (sol 20 21) 8 (with_context (str "ann")) (str "s1") gateway
      (sol_response gateway opened) (store_session opened gateway) creates_it

get_sol_session-create_example :
    (s : ConsoleSession) × (s.server_id ≡ str "s1")
    × (s.customer_id ≡ str "ann")
    × (get_sol_session accepts 8 30
          (with_context (str "bob"))
          (sol_response gateway opened).session_id
          (store_session opened gateway)
        ≡ (if ltb (deadline (sol 20 21)) 30
            then err (session_not_found (sol_response gateway opened).session_id)
            else if same (str "ann") (str "bob")
            then ok
                (view_of (store_session opened gateway) (sol_response gateway opened).session_id s)
            else err access_denied))
get_sol_session-create_example =
    get_sol_session-create accepts (sol 20 21) 8 (with_context (str "ann")) (str "s1") gateway
      (sol_response gateway opened) (store_session opened gateway) 8 30 (with_context (str "bob"))
      (context_of (str "ann")) (context_of (str "bob")) of_ann of_bob creates_it

abbrev vnc_procedure : Text
vnc_procedure = str "/gateway.v1.GatewayService/CloseVNCSession"

not_exempt : is_exempt vnc_procedure ≡ false
unfolding is_exempt same
not_exempt = refl

abbrev behind : Context
behind = record {
  token = some (str "t");
  claims = some (manager_claims someone);
  server_context = some (context_of (str "ann"));
}

passes : token_validation accepts 8 vnc_procedure bare ≡ ok behind
unfolding token_validation is_exempt same token_present
passes = refl

vnc_session-token_validation_example :
    (get_vnc_session 8 9 behind (str "vnc-1") gateway ≡ err no_auth_claims)
    × (close_vnc_session behind (str "vnc-1") gateway ≡ err no_auth_claims)
vnc_session-token_validation_example =
    vnc_session-token_validation accepts 8 vnc_procedure bare behind 8 9 (str "vnc-1") gateway
      not_exempt passes

close_sol_session-get_example :
    (after : Gateway) × (close_sol_session accepts 8
        (with_context (str "bob"))
        (str "sol-20")
        (store_session opened gateway)
      ≡ ok after)
    × (get_console_session_by_id 30 (str "sol-20") after ≡ (
        if same (str "sol-20") (str "sol-20")
        then none
        else get_console_session_by_id 30 (str "sol-20") (store_session opened gateway)))
close_sol_session-get_example =
    close_sol_session-get accepts 8 30 (with_context (str "bob")) (str "sol-20") (str "sol-20")
      (store_session opened gateway) (context_of (str "bob")) of_bob

abbrev ipmi_endpoint : BmcControlEndpoint
ipmi_endpoint = record {
  endpoint = str "10.0.0.1";
  bmc_type = str "ipmi";
  username = [];
  password = [];
  tls = none;
  capabilities = [];
}

abbrev owned : Server (Unit {0})
owned = record {
  id = str "s1";
  customer_id = str "system";
  datacenter_id = str "dc";
  control_endpoints = ipmi_endpoint ∷ [];
  primary_protocol = [];
  sol_endpoint = none;
  vnc_endpoint = none;
  features = [];
  status = [];
  metadata = [];
  discovery_metadata = none;
  created_at = 1;
  updated_at = 1;
}

abbrev console_access : List Text
console_access = str "console:access" ∷ []

abbrev bearing : ℕ → Context
bearing now = record {
  token = some (str "t");
  claims = none;
  server_context = some (create_server_context now owned console_access);
}

abbrev shared : ConsoleSession
shared = sol_session (create_server_context 5 owned console_access) mapping (str "s1") 20 21

shares_it :
    create accepts (sol 20 21) 8 (bearing 5) (str "s1") gateway
    ≡ ok (sol_response gateway shared, store_session shared gateway)
unfolding create_sol_session authorize from_context extract_server_context same may_use_console
    has_permission listed find_agent get lookup create_server_context bmc_of
    get_primary_control_endpoint of_protocol first_unless
shares_it = refl

carried :
    (now : ℕ)
    → extract_server_context accepts 8 (bearing now)
      ≡ some (create_server_context now owned console_access)
unfolding extract_server_context
carried now = refl

get_sol_session_shared_example :
    (s : ConsoleSession) × (s.server_id ≡ str "s1")
    × (get_sol_session accepts 8 30
          (bearing 6)
          (sol_response gateway shared).session_id
          (store_session shared gateway)
        ≡ ok (view_of (store_session shared gateway) (sol_response gateway shared).session_id s))
get_sol_session_shared_example =
    get_sol_session_shared accepts (sol 20 21) 8 (bearing 5) (str "s1") gateway
      (sol_response gateway shared) (store_session shared gateway) 8 30 (bearing 6) owned 5 6
      console_access console_access (carried 5) (carried 6) shares_it (omega arith)

-- ===== src/Gateway/Console.antt =====
-- Console sessions of gateway/internal/gateway/handler.go. Each reading of the clock is an argument,
-- in the order in which the method makes them.
pub mod Lifetime
pub mod Ownership
use conduit_bmc.Base.{
  ℕ, ◌+◌, ◌*◌, ltb, if◌then◌else◌, Bool, true, false, Option, none, some, ◌++◌, Result, ok, err,
  or_fail, require, ◌>>=◌, ◌>>◌, Text, str, same, lookup, insert, delete, decimal, length,
  trim_prefix,
}
use conduit_bmc.Agents.{Info, get}
use conduit_bmc.Auth.Context.{ServerContext, AuthClaims, ClaimsValue, manager_claims, core_claims}
use conduit_bmc.Gateway.{
  AgentBmcMapping, ConsoleSession, Gateway, Context, Failure, agent_not_available, no_auth_claims,
  session_not_found, access_denied,
}
use conduit_bmc.Gateway.Access.{
  Validator, authorize, may_use_console, extract_server_context, from_context,
}
use conduit_bmc.Gateway.Power.{find_agent}

-- time.Hour, in nanoseconds.
abbrev pub hour : ℕ
hour = 3600000000000

pub record CreateSessionResponse : Type 0 where
  pub session_id : Text
  pub websocket_endpoint : Text
  pub viewer_url : Text
  pub expires_at : ℕ

-- VNCSession and SOLSession, as clients see them.
pub record SessionView : Type 0 where
  pub id : Text
  pub customer_id : Text
  pub server_id : Text
  pub agent_id : Text
  pub status : Text
  pub websocket_endpoint : Text
  pub viewer_url : Text
  pub created_at : ℕ
  pub expires_at : ℕ

abbrev pub vnc_websocket : Gateway → Text → Text
vnc_websocket g id = str "ws://" ++ (g.external_endpoint ++ (str "/vnc/" ++ (id ++ str "/ws")))

abbrev pub vnc_viewer : Gateway → Text → Text
vnc_viewer g id = str "http://" ++ (g.external_endpoint ++ (str "/vnc/" ++ id))

abbrev pub sol_websocket : Gateway → Text → Text
sol_websocket g id = str "ws://" ++ (g.external_endpoint ++ (str "/sol/" ++ id))

abbrev pub sol_console : Gateway → Text → Text
sol_console g id = str "http://" ++ (g.external_endpoint ++ (str "/console/" ++ id))

unfoldable pub store_session : ConsoleSession → Gateway → Gateway
store_session s g = record g { console_sessions = insert s.session_id s g.console_sessions }

unfoldable pub remove_session : Text → Gateway → Gateway
remove_session id g = record g { console_sessions = delete id g.console_sessions }

unfoldable pub get_console_session_count : Gateway → ℕ
get_console_session_count g = length g.console_sessions

-- A session that has expired is not found; its removal is a step of its own, `remove_session`.
unfoldable pub unexpired : ℕ → Option ConsoleSession → Option ConsoleSession
unexpired now none = none
unexpired now (some s) = if ltb s.expires_at now then none else some s

unfoldable pub get_console_session_by_id : ℕ → Text → Gateway → Option ConsoleSession
get_console_session_by_id now id g = unexpired now (lookup id g.console_sessions)

-- `StartVNCProxy`.
pub record StartVncProxyRequest : Type 0 where
  pub agent_id : Text
  pub bmc_endpoint : Text
  pub session_id : Text
  pub bmc_type : Text

pub record StartVncProxyResponse : Type 0 where
  pub success : Bool
  pub message : Text
  pub proxy_endpoint : Text

unfoldable pub proxy_url : Text → StartVncProxyRequest → Text
proxy_url agent_endpoint req =
    str "ws://"
    ++ (trim_prefix (str "http://") agent_endpoint
        ++ (str "/vnc/"
            ++ (req.session_id
                ++ (str "/"
                    ++ (trim_prefix (str "http://") req.bmc_endpoint
                        ++ (str "?type=" ++ req.bmc_type))))))

unfoldable pub start_vnc_proxy :
    StartVncProxyRequest → Gateway → Result Failure StartVncProxyResponse
start_vnc_proxy req g = do
  agent ← or_fail (get req.agent_id g.agent_registry) (agent_not_available req.agent_id)
  ok (record {
    success = true;
    message =
        str "VNC proxy configured for session "
        ++ (req.session_id ++ (str " via agent " ++ req.agent_id));
    proxy_endpoint = proxy_url agent.endpoint req;
  })

-- `ctx.Value("claims").(*commonauth.AuthClaims)`, of which the customer is used.
unfoldable pub claims_customer : Option ClaimsValue → Option Text
claims_customer none = none
claims_customer (some (manager_claims c)) = none
claims_customer (some (core_claims customer email jti)) = some customer

-- What `GetVNCSession` makes up, without a look at the sessions.
unfoldable pub get_vnc_session : ℕ → ℕ → Context → Text → Gateway → Result Failure SessionView
get_vnc_session created_at now ctx id g = do
  customer ← or_fail (claims_customer ctx.claims) no_auth_claims
  ok (record {
    id = id;
    customer_id = customer;
    server_id = str "server-001";
    agent_id = str "agent-001";
    status = str "active";
    websocket_endpoint = vnc_websocket g id;
    viewer_url = vnc_viewer g id;
    created_at = created_at;
    expires_at = now + hour;
  })

unfoldable pub close_vnc_session : Context → Text → Gateway → Result Failure Gateway
close_vnc_session ctx id g = do
  customer ← or_fail (claims_customer ctx.claims) no_auth_claims
  ok (remove_session id g)

unfoldable pub view_of : Gateway → Text → ConsoleSession → SessionView
view_of g id s = record {
  id = id;
  customer_id = s.customer_id;
  server_id = s.server_id;
  agent_id = s.agent_id;
  status = str "active";
  websocket_endpoint = sol_websocket g id;
  viewer_url = sol_console g id;
  created_at = s.created_at;
  expires_at = s.expires_at;
}

unfoldable pub vnc_session : ServerContext → AgentBmcMapping → ℕ → ℕ → ℕ → ConsoleSession
vnc_session sc mapping id_time expiry_time created_at = record {
  session_id = str "vnc-" ++ decimal id_time;
  server_id = sc.server_id;
  bmc_endpoint = sc.bmc_endpoint;
  agent_id = mapping.agent_id;
  customer_id = sc.customer_id;
  created_at = created_at;
  expires_at = expiry_time + hour;
}

unfoldable pub vnc_response : Gateway → ConsoleSession → CreateSessionResponse
vnc_response g s = record {
  session_id = s.session_id;
  websocket_endpoint = vnc_websocket g s.session_id;
  viewer_url = vnc_viewer g s.session_id;
  expires_at = s.expires_at;
}

unfoldable pub sol_session : ServerContext → AgentBmcMapping → Text → ℕ → ℕ → ConsoleSession
sol_session sc mapping server_id id_time created_at = record {
  session_id = str "sol-" ++ decimal id_time;
  server_id = server_id;
  bmc_endpoint = sc.bmc_endpoint;
  agent_id = mapping.agent_id;
  customer_id = sc.customer_id;
  created_at = created_at;
  expires_at = created_at + 2 * hour;
}

unfoldable pub sol_response : Gateway → ConsoleSession → CreateSessionResponse
sol_response g s = record {
  session_id = s.session_id;
  websocket_endpoint = sol_websocket g s.session_id;
  viewer_url = sol_console g s.session_id;
  expires_at = s.expires_at;
}

module _ (validate : Validator) where
  unfoldable pub create_vnc_session :
      ℕ → ℕ → ℕ → ℕ → Context → Text → Gateway → Result Failure (CreateSessionResponse × Gateway)
  create_vnc_session now id_time expiry_time created_at ctx server_id g = do
    sc ← authorize validate now ctx server_id may_use_console
    (mapping, agent) ← find_agent g sc.bmc_endpoint
    let s = vnc_session sc mapping id_time expiry_time created_at
    ok (vnc_response g s, store_session s g)

  unfoldable pub create_sol_session :
      ℕ → ℕ → ℕ → Context → Text → Gateway → Result Failure (CreateSessionResponse × Gateway)
  create_sol_session now id_time created_at ctx server_id g = do
    sc ← authorize validate now ctx server_id may_use_console
    (mapping, agent) ← find_agent g sc.bmc_endpoint
    let s = sol_session sc mapping server_id id_time created_at
    ok (sol_response g s, store_session s g)

  unfoldable pub get_sol_session : ℕ → ℕ → Context → Text → Gateway → Result Failure SessionView
  get_sol_session now later ctx id g = do
    sc ← from_context validate (extract_server_context validate now ctx)
    s ← or_fail (get_console_session_by_id later id g) (session_not_found id)
    require (same s.customer_id sc.customer_id) access_denied
    ok (view_of g id s)

  unfoldable pub close_sol_session : ℕ → Context → Text → Gateway → Result Failure Gateway
  close_sol_session now ctx id g = do
    sc ← from_context validate (extract_server_context validate now ctx)
    ok (remove_session id g)

-- ===== src/Gateway.antt =====
-- gateway/internal/gateway/handler.go: the state of `RegionalGatewayHandler` and what its methods
-- receive and return. A `time.Time` is a number of nanoseconds; a method
-- is given the times that it reads, one for all readings where they are not told apart.
pub mod Register
pub mod Report
pub mod Access
pub mod Power
pub mod Console
pub mod Reach
pub mod Stream
pub mod Tokens
mod Tests
use conduit_bmc.Base.{ℕ, Bool, Option, none, List, [], Text, Map, Result}
use conduit_bmc.Types.Discovery.{DiscoveryMetadata}
use conduit_bmc.Agents.{Registry, new_registry}
use conduit_bmc.Auth.Context.{ServerContext, AuthClaims, ClaimsValue}

-- domain.AgentBMCMapping.
pub record AgentBmcMapping : Type 0 where
  pub server_id : Text
  pub bmc_endpoint : Text
  pub agent_id : Text
  pub datacenter_id : Text
  pub bmc_type : Text
  pub features : List Text
  pub status : Text
  pub last_seen : ℕ
  pub metadata : Map Text
  pub username : Text
  pub capabilities : List Text
  pub discovery_metadata : Option DiscoveryMetadata

pub record ConsoleSession : Type 0 where
  pub session_id : Text
  pub server_id : Text
  pub bmc_endpoint : Text
  pub agent_id : Text
  pub customer_id : Text
  pub created_at : ℕ
  pub expires_at : ℕ

-- The in-memory state. The web sessions are a component of their own.
pub record Gateway : Type 0 where
  pub external_endpoint : Text
  pub agent_registry : Registry
  pub bmc_endpoint_mapping : Map AgentBmcMapping
  pub console_sessions : Map ConsoleSession

pub new_gateway : Text → Gateway
new_gateway external_endpoint = record {
  external_endpoint = external_endpoint;
  agent_registry = new_registry;
  bmc_endpoint_mapping = [];
  console_sessions = [];
}

-- The values that the interceptors put into the request's context.
pub record Context : Type 0 where
  pub token : Option Text
  pub claims : Option ClaimsValue
  pub server_context : Option ServerContext

-- Why a request fails, each reason with its Connect code below.
pub data Failure : Type 0 where
  no_authentication_token : Failure
  invalid_token : Failure
  invalid_server_context : Failure
  server_id_mismatch : Failure
  insufficient_permissions : Failure
  endpoint_not_found : Text → Failure
  agent_not_available : Text → Failure
  agent_not_found : Text → Failure
  no_auth_claims : Failure
  session_not_found : Text → Failure
  access_denied : Failure

pub data Code : Type 0 where
  unauthenticated permission_denied not_found unavailable internal : Code

pub code : Failure → Code
code no_authentication_token = unauthenticated
code invalid_token = unauthenticated
code invalid_server_context = unauthenticated
code server_id_mismatch = permission_denied
code insufficient_permissions = permission_denied
code (endpoint_not_found e) = not_found
code (agent_not_available a) = unavailable
code (agent_not_found a) = not_found
code no_auth_claims = internal
code (session_not_found s) = not_found
code access_denied = permission_denied

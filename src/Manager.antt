-- ===== src/Manager.antt =====
-- manager: the service that knows the servers and issues the tokens. The values that a request's
-- context holds, and why a request fails, with the Connect codes.
pub mod Access
pub mod Database
pub mod Discovery
pub mod Messages
pub mod Models
pub mod Report
pub mod Sample
pub mod Servers
pub mod Sql
pub mod Status
mod Tests
use conduit_bmc.Base.{if◌then◌else◌, Text, Result, ok, err, Option}
use conduit_bmc.Auth.Context.{AuthClaims}

-- What AuthInterceptor puts there.
pub record Context : Type 0 where
  pub claims : Option AuthClaims
  pub customer_id : Option Text
  pub customer_email : Option Text

pub data Failure : Type 0 where
  missing_authorization_header invalid_header_format invalid_token : Failure
  customer_not_authenticated no_auth_claims invalid_bmc_type : Failure
  server_not_found location_not_found : Text → Failure
  get_server_failed list_servers_failed create_server_failed : Failure
  register_location_failed list_locations_failed : Failure
  gateway_info_failed register_gateway_failed list_gateways_failed : Failure
  generate_token_failed generate_server_token_failed : Failure
  refresh_not_implemented : Failure

pub data Code : Type 0 where
  unauthenticated invalid_argument not_found unimplemented internal : Code

pub code : Failure → Code
code missing_authorization_header = unauthenticated
code invalid_header_format = unauthenticated
code invalid_token = unauthenticated
code customer_not_authenticated = unauthenticated
code invalid_bmc_type = invalid_argument
code (server_not_found s) = not_found
code (location_not_found s) = not_found
code refresh_not_implemented = unimplemented
code no_auth_claims = internal
code get_server_failed = internal
code list_servers_failed = internal
code create_server_failed = internal
code register_location_failed = internal
code list_locations_failed = internal
code gateway_info_failed = internal
code register_gateway_failed = internal
code list_gateways_failed = internal
code generate_token_failed = internal
code generate_server_token_failed = internal

-- `err != nil` of a call whose error the handler replaces by its own.
abbrev pub replaced {ℓ κ} : {E : Type ℓ} {A : Type κ} → Result E A → Failure → Result Failure A
replaced (ok a) f = ok a
replaced (err e) f = err f

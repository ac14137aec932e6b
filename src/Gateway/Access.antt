-- ===== src/Gateway/Access.antt =====
-- Who may call a method: `TokenValidationInterceptor` and `extractServerContextFromJWT` of
-- gateway/internal/gateway/handler.go, and the guards with which its methods begin.
pub mod Claims
use conduit_bmc.Base.{
  ℕ, if◌then◌else◌, Bool, true, false, ◌||◌, not, Option, none, some, Result, ok, err, require,
  ◌>>=◌, ◌>>◌, Text, str, same, is_empty,
}
use conduit_bmc.Auth.Context.{
  ServerContext, AuthClaims, ClaimsValue, manager_claims, has_permission,
}
use conduit_bmc.Gateway.{
  Context, Failure, no_authentication_token, invalid_token, invalid_server_context,
  server_id_mismatch, insufficient_permissions,
}

-- What `JWTManager.ValidateServerToken` returns for a token, at a time.
abbrev pub Validator : Type 0
Validator = ℕ → Text → Option (AuthClaims × Option ServerContext)

-- Registration, heartbeats and health checks need no token.
unfoldable pub is_exempt : Text → Bool
is_exempt procedure =
    same procedure (str "/gateway.v1.GatewayService/RegisterAgent")
    || (same procedure (str "/gateway.v1.GatewayService/AgentHeartbeat")
        || same procedure (str "/gateway.v1.GatewayService/HealthCheck"))

-- `ctx.Value("token").(string)` is there and not empty.
unfoldable pub token_present : Option Text → Option Text
token_present none = none
token_present (some t) = if is_empty t then none else some t

-- The claims always go into the context, and the server context if the token has one.
enriched : Context → Option (AuthClaims × Option ServerContext) → Result Failure Context
enriched ctx none = err invalid_token
enriched ctx (some (claims, none)) = ok (record ctx { claims = some (manager_claims claims) })
enriched ctx (some (claims, some sc)) =
    ok (record ctx { claims = some (manager_claims claims); server_context = some sc })

module _ (validate : Validator) where
  validated : ℕ → Context → Option Text → Result Failure Context
  validated now ctx none = err no_authentication_token
  validated now ctx (some t) = enriched ctx (validate now t)

  -- The context with which the method is called, or the failure that is returned in its place.
  unfoldable pub token_validation : ℕ → Text → Context → Result Failure Context
  unfolding validated enriched
  token_validation now procedure ctx =
      if is_exempt procedure then ok ctx else validated now ctx (token_present ctx.token)

  of_validated : Option (AuthClaims × Option ServerContext) → Option ServerContext
  of_validated none = none
  of_validated (some (claims, sc)) = sc

  of_token : ℕ → Option Text → Option ServerContext
  of_token now none = none
  of_token now (some t) = of_validated (validate now t)

  -- The context of the interceptor if there is one, and else that of the token.
  unfoldable pub extract_server_context : ℕ → Context → Option ServerContext
  unfolding of_token of_validated
  extract_server_context now ctx = elim ctx.server_context [
    | some sc ↦ some sc
    | none ↦ of_token now ctx.token
  ]

  unfoldable pub from_context : Option ServerContext → Result Failure ServerContext
  from_context none = err invalid_server_context
  from_context (some sc) = ok sc

  -- The guards that power and console methods share: a server context, its server, a permission.
  unfoldable pub authorize :
      ℕ → Context → Text → (ServerContext → Bool) → Result Failure ServerContext
  unfolding from_context
  authorize now ctx server_id permitted = do
    sc ← from_context (extract_server_context now ctx)
    require (same sc.server_id server_id) server_id_mismatch
    require (permitted sc) insufficient_permissions
    ok sc

unfoldable pub may_write_power : ServerContext → Bool
may_write_power sc = has_permission sc (str "power:write")

unfoldable pub may_read_power : ServerContext → Bool
may_read_power sc = has_permission sc (str "power:read")

unfoldable pub may_use_console : ServerContext → Bool
may_use_console sc =
    has_permission sc (str "console:write") || has_permission sc (str "console:access")

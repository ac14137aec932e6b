-- ===== src/Gateway/Console/Ownership.antt =====
-- Who can see and close which console sessions.
use conduit_bmc.Base.{
  ℕ, ◌≡◌, if◌then◌else◌, false, none, some, ok, err, Text, same, lookup-delete, arith,
}
use conduit_bmc.Auth.Context.{ServerContext}
use conduit_bmc.Gateway.{Gateway, Context, no_auth_claims}
use conduit_bmc.Gateway.Access.{
  Validator, token_validation, is_exempt, extract_server_context, from_context,
}
use conduit_bmc.Gateway.Access.Claims.{token_validation-claims}
use conduit_bmc.Gateway.Console.{
  remove_session, unexpired, get_console_session_by_id, claims_customer, get_vnc_session,
  close_vnc_session, close_sol_session,
}

module _ (validate : Validator) where
  -- Behind the interceptor, `GetVNCSession` and `CloseVNCSession` fail for every caller and every
  -- session: the claims that it stores are not of the type that they assert.
  pub vnc_session-token_validation :
      (now : ℕ) (procedure : Text) (ctx after : Context) (created_at later : ℕ) (id : Text)
      (g : Gateway)
      → is_exempt procedure ≡ false
      → token_validation validate now procedure ctx ≡ ok after
      → (get_vnc_session created_at later after id g ≡ err no_auth_claims)
        × (close_vnc_session after id g ≡ err no_auth_claims)
  unfolding get_vnc_session close_vnc_session claims_customer
  vnc_session-token_validation now procedure ctx after created_at later id g x h =
      let (claims, e) = token_validation-claims validate now procedure ctx after x h in
      ground (arith, e)

  -- A token with any server context closes any console session, whoever owns it: afterwards that
  -- session is not found, and every other one is found as before.
  pub close_sol_session-get :
      (now later : ℕ) (ctx : Context) (id j : Text) (g : Gateway) (sc : ServerContext)
      → extract_server_context validate now ctx ≡ some sc
      → (after : Gateway) × (close_sol_session validate now ctx id g ≡ ok after)
        × (get_console_session_by_id later j after
            ≡ (if same id j then none else get_console_session_by_id later j g))
  unfolding close_sol_session from_context get_console_session_by_id remove_session unexpired
  close_sol_session-get now later ctx id j g sc p = (
    remove_session id g,
    ground (arith, p),
    ground (arith, lookup-delete id j g.console_sessions),
  )

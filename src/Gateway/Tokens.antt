-- ===== src/Gateway/Tokens.antt =====
-- The gateway behind the manager's tokens: `JWTManager.ValidateServerToken` is the validation that
-- gateway/internal/gateway/handler.go calls.
use conduit_bmc.Base.{
  length, Text, same, is_empty, same_refl, Result, ok, err, ℕ, ◌+◌, ◌*◌, ◌/◌, ◌≤◌, ◌<◌, ◌≡◌, refl,
  Bool, true, false, Option, none, some, List, arith,
}
use conduit_bmc.Types.Server.{Server}
use conduit_bmc.Auth.Context.{ServerContext, AuthClaims, manager_claims}
use conduit_bmc.Auth.Crypto.{Crypto, IsLawful, second}
use conduit_bmc.Auth.Token
use conduit_bmc.Auth.Token.{
  Customer, hour, create_server_context, generate_server_token, validate_server_token,
}
use conduit_bmc.Auth.Token.RoundTrip.{validate-generate_server_token}
use conduit_bmc.Gateway.{Gateway, Context, ConsoleSession}
use conduit_bmc.Gateway.Access.{
  Validator, is_exempt, token_present, token_validation, extract_server_context, from_context,
  authorize,
}
use conduit_bmc.Gateway.Console.{CreateSessionResponse, get_sol_session, view_of}
use conduit_bmc.Gateway.Console.Lifetime.{Kind, create, deadline, get_sol_session-create}

abbrev accepted :
    Result Token.Error (AuthClaims × Option ServerContext)
    → Option (AuthClaims × Option ServerContext)
accepted (ok v) = some v
accepted (err e) = none

-- Both readings of the clock are taken at once.
abbrev pub validator : Crypto → Text → Validator
validator c key now token = accepted (validate_server_token c key now now token)

abbrev pub carrying : Text → Context
carrying token = record { token = some token; claims = none; server_context = none }

context_server :
    {D : Type 0} (now : ℕ) (server : Server D) (permissions : List Text)
    → (create_server_context now server permissions).server_id ≡ server.id
unfolding create_server_context
context_server now server permissions = refl

context_customer :
    {D : Type 0} (now : ℕ) (server : Server D) (permissions : List Text)
    → (create_server_context now server permissions).customer_id ≡ server.customer_id
unfolding create_server_context
context_customer now server permissions = refl

-- What the interceptor makes of a token that has been issued.
pub token_validation-issued :
    {D : Type 0} (c : Crypto) (laws : IsLawful c) (key : Text) (now iat_time exp_time : ℕ)
    (nonce uuid : List ℕ) (customer : Customer) (server : Server D) (permissions : List Text)
    (bytes : List ℕ) (procedure : Text) (at : ℕ)
    → is_empty key ≡ false
    → length nonce ≡ 12
    → length uuid ≡ 16
    → c.marshal (create_server_context now server permissions) ≡ some bytes
    → c.unmarshal bytes ≡ some (create_server_context now server permissions)
    → at < (exp_time + hour) / second * second
    → at ≤ now + hour
    → is_exempt procedure ≡ false
    → (token : Text) × (generate_server_token c key now iat_time exp_time nonce uuid customer server
          permissions
        ≡ ok token)
      × (after : Context) × (token_validation (validator c key) at procedure (carrying token)
          ≡ ok after)
      × (after.server_context ≡ some (create_server_context now server permissions))
unfolding token_validation token_present
token_validation-issued c laws key now iat exp nonce uuid customer server permissions bytes
      procedure at k n u m v t l x =
    let (token, filled, generated, valid) =
      validate-generate_server_token c laws key now iat exp nonce uuid customer server permissions
        bytes at at k n u m v t l in
    let sc = create_server_context now server permissions in
    let who : AuthClaims = record {
      customer_id = customer.id;
      email = customer.email;
      is_admin = false;
      jti = uuid;
    } in
    let after : Context = record {
      token = some token;
      claims = some (manager_claims who);
      server_context = some sc;
    } in
    let carried : after.server_context ≡ some sc = refl in
    (token, generated, after, ground (arith, x, filled, valid), carried)

pub authorize-context :
    {D : Type 0} (validate : Validator) (at now : ℕ) (server : Server D) (permissions : List Text)
    (ctx : Context) (permitted : ServerContext → Bool)
    → ctx.server_context ≡ some (create_server_context now server permissions)
    → permitted (create_server_context now server permissions) ≡ true
    → authorize validate at ctx server.id permitted
      ≡ ok (create_server_context now server permissions)
unfolding authorize from_context extract_server_context
authorize-context validate at now server permissions ctx permitted h p =
    let sc = create_server_context now server permissions in
    let own : same sc.server_id server.id ≡ true =
      rw (context_server now server permissions) (same_refl server.id) in
    ground (arith, h, p, own)

-- A request with a server token that the manager issued passes the interceptor until the token
-- expires, and is then admitted to every method of the token's server whose permission the token has.
pub authorize-issued :
    {D : Type 0} (c : Crypto) (laws : IsLawful c) (key : Text) (now iat_time exp_time : ℕ)
    (nonce uuid : List ℕ) (customer : Customer) (server : Server D) (permissions : List Text)
    (bytes : List ℕ) (procedure : Text) (permitted : ServerContext → Bool) (at : ℕ)
    → is_empty key ≡ false
    → length nonce ≡ 12
    → length uuid ≡ 16
    → c.marshal (create_server_context now server permissions) ≡ some bytes
    → c.unmarshal bytes ≡ some (create_server_context now server permissions)
    → at < (exp_time + hour) / second * second
    → at ≤ now + hour
    → is_exempt procedure ≡ false
    → permitted (create_server_context now server permissions) ≡ true
    → (token : Text) × (generate_server_token c key now iat_time exp_time nonce uuid customer server
          permissions
        ≡ ok token)
      × (after : Context) × (token_validation (validator c key) at procedure (carrying token)
          ≡ ok after)
      × (authorize (validator c key) at after server.id permitted
          ≡ ok (create_server_context now server permissions))
authorize-issued c laws key now iat exp nonce uuid customer server permissions bytes procedure
      permitted at k n u m v t l x p =
    let (token, generated, after, passed, carried) =
      token_validation-issued c laws key now iat exp nonce uuid customer server permissions bytes
        procedure at k n u m v t l x in
    (
      token,
      generated,
      after,
      passed,
      authorize-context (validator c key) at now server permissions after permitted carried p,
    )

-- `GetSOLSession` shows a session of one server to every token that is issued for the same server,
-- whoever asks, until it expires: the owner that it compares is the server's, not the caller's.
pub get_sol_session_shared :
    {D : Type 0} (validate : Validator) (k : Kind) (now : ℕ) (ctx : Context) (server_id : Text)
    (g : Gateway) (response : CreateSessionResponse) (after : Gateway) (now₂ later : ℕ)
    (ctx₂ : Context) (server : Server D) (t₁ t₂ : ℕ) (p₁ p₂ : List Text)
    → extract_server_context validate now ctx ≡ some (create_server_context t₁ server p₁)
    → extract_server_context validate now₂ ctx₂ ≡ some (create_server_context t₂ server p₂)
    → create validate k now ctx server_id g ≡ ok (response, after)
    → later ≤ deadline k
    → (s : ConsoleSession) × (s.server_id ≡ server_id)
      × (get_sol_session validate now₂ later ctx₂ response.session_id after
          ≡ ok (view_of after response.session_id s))
get_sol_session_shared validate k now ctx server_id g response after now₂ later ctx₂ server t₁ t₂ p₁
      p₂ a b h l =
    let owner = create_server_context t₁ server p₁ in
    let asking = create_server_context t₂ server p₂ in
    let (s, f, _, e) =
      get_sol_session-create validate k now ctx server_id g response after now₂ later ctx₂ owner
        asking a b h in
    let shared : same owner.customer_id asking.customer_id ≡ true =
      rw (context_customer t₁ server p₁, context_customer t₂ server p₂)
        (same_refl server.customer_id) in
    (s, f, ground (arith, e, shared, l))

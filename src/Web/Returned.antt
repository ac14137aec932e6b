-- ===== src/Web/Returned.antt =====
-- From the creation of a console to a browser's later calls.
use conduit_bmc.Base.{
  ltb, if◌then◌else◌, Text, str, same, is_empty, lookup-insert_self, ok, ℕ, ◌+◌, ◌-◌, ◌*◌, ◌≤◌, ◌<◌,
  ◌≡◌, refl, ◌⊎◌, inl, inr, true, false, Option, none, some, ◌++◌, arith,
}
use conduit_bmc.Auth.Bearer.{extract_jwt_from_auth_header_iff}
use conduit_bmc.Gateway.{Context}
use conduit_bmc.Sessions
use conduit_bmc.Sessions.{Store, WebSession, live}
use conduit_bmc.Web.{Request, cookie_value}
use conduit_bmc.Web.Claims.{Codec, JwtClaims, extract_jwt_claims, calculate_renewal_time}
use conduit_bmc.Web.Cookies.{
  Cookie, cookie_name, default_session_duration, create_session_cookie,
  create_session_cookie_for_request, create_session_cookie_with_secure,
}
use conduit_bmc.Web.Interceptors.{
  jwt_of_header, jwt_of_cookie, extract_jwt, auth_interceptor, create_web_session_for_console,
  cookie_for, handle_sol_session_response, handle_vnc_session_response, session_interceptor,
}

-- The two calls behind which a cookie is set.
abbrev pub CreatesConsole : Text → Type 0
CreatesConsole procedure =
    (procedure ≡ str "/gateway.v1.GatewayService/CreateSOLSession")
    ⊎ (procedure ≡ str "/gateway.v1.GatewayService/CreateVNCSession")

abbrev Set :
    Codec
    → ℕ
    → ℕ
    → Text
    → Text
    → Text
    → Option Request
    → Text
    → Text
    → Store
    → JwtClaims
    → WebSession
Set codec earlier now id procedure jwt request session_id server_id store claims = record {
  id = id;
  sol_session_id = session_id;
  vnc_session_id = session_id;
  customer_jwt = jwt;
  created_at = now;
  last_activity_at = now;
  expires_at = now + default_session_duration;
  token_expires_at = claims.expires_at * 1000000000;
  token_renewal_at = calculate_renewal_time earlier (claims.expires_at * 1000000000);
  customer_id = claims.customer_id;
  server_id = server_id;
}

sets :
    (codec : Codec) (earlier now : ℕ) (id procedure jwt : Text) (request : Option Request)
    (session_id server_id : Text) (store : Store) (claims : JwtClaims)
    → CreatesConsole procedure
    → extract_jwt_claims codec jwt ≡ ok claims
    → session_interceptor codec earlier now
        (some id)
        true
        procedure
        (str "Bearer " ++ jwt)
        request
        session_id
        server_id
        store
      ≡ (
        some (cookie_for id request),
        Sessions.create
            (Set codec earlier now id procedure jwt request session_id server_id store claims)
            store,
      )
unfolding session_interceptor handle_sol_session_response handle_vnc_session_response
    create_web_session_for_console same
sets codec earlier now id procedure jwt request session_id server_id store claims (inl p) c =
    let bearer = (extract_jwt_from_auth_header_iff (str "Bearer " ++ jwt) jwt).1 refl in
    rw p (ground (arith, c, bearer))
sets codec earlier now id procedure jwt request session_id server_id store claims (inr p) c =
    let bearer = (extract_jwt_from_auth_header_iff (str "Bearer " ++ jwt) jwt).1 refl in
    rw p (ground (arith, c, bearer))

comes_back :
    (s : WebSession) (store : Store) (later : ℕ) (r : Request) (header : Text) (ctx : Context)
    → is_empty s.customer_jwt ≡ false
    → jwt_of_header header ≡ none
    → cookie_value cookie_name r.cookies ≡ some s.id
    → auth_interceptor later header (some r) (Sessions.create s store) ctx
      ≡ (if ltb s.expires_at later then ctx else record ctx { token = some s.customer_jwt })
unfolding auth_interceptor extract_jwt jwt_of_cookie Sessions.get Sessions.create live
comes_back s store later r header ctx e h k =
    ground (arith, e, h, k, lookup-insert_self s.id s store)

made :
    (id : Text) (request : Option Request)
    → ((cookie_for id request).name ≡ cookie_name)
      × ((cookie_for id request).value ≡ id)
      × ((cookie_for id request).http_only ≡ true)
unfolding cookie_for create_session_cookie create_session_cookie_for_request
    create_session_cookie_with_secure
made id none = (refl, refl, refl)
made id (some r) = (refl, refl, refl)

-- After a console has been created with a token in the Authorization header whose claims can be read,
-- the response sets the session's cookie, which scripts cannot read. A later call with that cookie and
-- without a token of its own is made with the same token for 24 hours, and then with none.
pub auth_interceptor-session_interceptor :
    (codec : Codec) (earlier now : ℕ) (id procedure jwt : Text) (request : Option Request)
    (session_id server_id : Text) (store : Store) (claims : JwtClaims) (later : ℕ) (r : Request)
    (header : Text) (ctx : Context)
    → CreatesConsole procedure
    → is_empty jwt ≡ false
    → extract_jwt_claims codec jwt ≡ ok claims
    → jwt_of_header header ≡ none
    → cookie_value cookie_name r.cookies ≡ some id
    → (cookie : Cookie) × (after : Store) × (session_interceptor codec earlier now
          (some id)
          true
          procedure
          (str "Bearer " ++ jwt)
          request
          session_id
          server_id
          store
        ≡ (some cookie, after))
      × (cookie.name ≡ cookie_name)
      × (cookie.value ≡ id)
      × (cookie.http_only ≡ true)
      × (auth_interceptor later header (some r) after ctx ≡ (
          if ltb (now + default_session_duration) later
          then ctx
          else record ctx { token = some jwt }))
auth_interceptor-session_interceptor codec earlier now id procedure jwt request session_id server_id
      store claims later r header ctx p e c h k =
    let s = Set codec earlier now id procedure jwt request session_id server_id store claims in
    let (named, valued, hidden) = made id request in
    (
      cookie_for id request,
      Sessions.create s store,
      sets codec earlier now id procedure jwt request session_id server_id store claims p c,
      named,
      valued,
      hidden,
      comes_back s store later r header ctx e h k,
    )

-- A token that is alive is due for renewal between now and its expiry, at most a fifth of the time
-- that is left before it, and less than one nanosecond short of that.
pub calculate_renewal_time_bounds :
    (now expires_at : ℕ)
    → now ≤ expires_at
    → (now ≤ calculate_renewal_time now expires_at)
      × (calculate_renewal_time now expires_at ≤ expires_at)
      × (5 * (expires_at - calculate_renewal_time now expires_at) ≤ expires_at - now)
      × (expires_at - now < 5 * (expires_at - calculate_renewal_time now expires_at) + 5)
unfolding calculate_renewal_time
calculate_renewal_time_bounds now expires_at h = ground arith

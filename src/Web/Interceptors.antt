-- ===== src/Web/Interceptors.antt =====
-- gateway/internal/gateway: auth_interceptor.go, session_helper.go and session_interceptor.go. The
-- header is the call's Authorization; the HTTP request and the response writer stand in the call's
-- context when the gateway's HTTP layer has put them there.
use conduit_bmc.Base.{
  if◌then◌else◌, Text, str, same, is_empty, Result, ok, err, ℕ, ◌+◌, ◌*◌, Bool, not, Option, none,
  some, [],
}
use conduit_bmc.Auth.Bearer.{extract_jwt_from_auth_header}
use conduit_bmc.Gateway.{Context}
use conduit_bmc.Sessions
use conduit_bmc.Sessions.{WebSession, Store}
use conduit_bmc.Web.{Request, cookie_value}
use conduit_bmc.Web.Claims.{Codec, extract_jwt_claims, calculate_renewal_time}
use conduit_bmc.Web.Cookies.{
  Cookie, cookie_name, default_session_duration, default_session_seconds, create_session_cookie,
  create_session_cookie_for_request,
}

unfoldable pub jwt_of_header : Text → Option Text
jwt_of_header header = elim (extract_jwt_from_auth_header header) [
  | ok jwt ↦ if is_empty jwt then none else some jwt
  | err f ↦ none
]

unfoldable pub jwt_of_cookie : ℕ → Option Request → Store → Text
jwt_of_cookie now none store = []
jwt_of_cookie now (some r) store = elim (cookie_value cookie_name r.cookies) [
  | none ↦ []
  | some value ↦ elim (Sessions.get now value store) [ ok s ↦ s.customer_jwt | err f ↦ [] ]
]

-- The header's token, or else the session's behind the cookie; empty when there is neither.
unfoldable pub extract_jwt : ℕ → Text → Option Request → Store → Text
unfolding jwt_of_header jwt_of_cookie
extract_jwt now header request store = elim (jwt_of_header header) [
  | some jwt ↦ jwt
  | none ↦ jwt_of_cookie now request store
]

-- The context with which the next interceptor is called.
unfoldable pub auth_interceptor : ℕ → Text → Option Request → Store → Context → Context
auth_interceptor now header request store ctx =
    let jwt = extract_jwt now header request store in
    if is_empty jwt then ctx else record ctx { token = some jwt }

pub data Error : Type 0 where
  claims_failed random_failed : Error

-- The clock is read for the renewal and then for the session; the id is drawn at random.
unfoldable pub create_web_session_for_console :
    Codec → ℕ → ℕ → Option Text → Text → Text → Text → Store → Result Error (WebSession × Store)
create_web_session_for_console codec earlier now drawn console_session_id customer_jwt server_id
      store =
    elim (extract_jwt_claims codec customer_jwt) [
      | err f ↦ err claims_failed
      | ok claims ↦ elim drawn [
        | none ↦ err random_failed
        | some web_session_id ↦
            let token_expires_at = claims.expires_at * 1000000000 in
            let s : WebSession = record {
              id = web_session_id;
              sol_session_id = console_session_id;
              vnc_session_id = console_session_id;
              customer_jwt = customer_jwt;
              created_at = now;
              last_activity_at = now;
              expires_at = now + default_session_duration;
              token_expires_at = token_expires_at;
              token_renewal_at = calculate_renewal_time earlier token_expires_at;
              customer_id = claims.customer_id;
              server_id = server_id;
            } in
            ok (s, Sessions.create s store)
      ]
    ]

unfoldable pub cookie_for : Text → Option Request → Cookie
cookie_for session_id none = create_session_cookie session_id default_session_seconds
cookie_for session_id (some r) =
    create_session_cookie_for_request session_id default_session_seconds r

-- The cookie that is set in the response, if one is. The handler for VNC has the same statements.
unfoldable pub handle_sol_session_response :
    Codec
    → ℕ
    → ℕ
    → Option Text
    → Text
    → Option Request
    → Text
    → Text
    → Store
    → Option Cookie × Store
unfolding create_web_session_for_console cookie_for
handle_sol_session_response codec earlier now drawn header request session_id server_id store =
    elim (extract_jwt_from_auth_header header) [
      | err f ↦ (none, store)
      | ok jwt ↦
          elim (create_web_session_for_console codec earlier now drawn session_id jwt server_id
            store) [
              | err f ↦ (none, store)
              | ok (s, after) ↦ (some (cookie_for s.id request), after)
            ]
    ]

unfoldable pub handle_vnc_session_response :
    Codec
    → ℕ
    → ℕ
    → Option Text
    → Text
    → Option Request
    → Text
    → Text
    → Store
    → Option Cookie × Store
unfolding create_web_session_for_console cookie_for
handle_vnc_session_response codec earlier now drawn header request session_id server_id store =
    elim (extract_jwt_from_auth_header header) [
      | err f ↦ (none, store)
      | ok jwt ↦
          elim (create_web_session_for_console codec earlier now drawn session_id jwt server_id
            store) [
              | err f ↦ (none, store)
              | ok (s, after) ↦ (some (cookie_for s.id request), after)
            ]
    ]

-- What follows a method that has succeeded, with a response writer in the context or without one.
unfoldable pub session_interceptor :
    Codec
    → ℕ
    → ℕ
    → Option Text
    → Bool
    → Text
    → Text
    → Option Request
    → Text
    → Text
    → Store
    → Option Cookie × Store
unfolding handle_sol_session_response handle_vnc_session_response
session_interceptor codec earlier now drawn has_writer procedure header request session_id server_id
      store =
    if not has_writer
    then (none, store)
    else if same procedure (str "/gateway.v1.GatewayService/CreateSOLSession")
    then handle_sol_session_response codec earlier now drawn header request session_id server_id
        store
    else if same procedure (str "/gateway.v1.GatewayService/CreateVNCSession")
    then handle_vnc_session_response codec earlier now drawn header request session_id server_id
        store
    else (none, store)

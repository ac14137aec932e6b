-- ===== src/Web/Tests.antt =====
-- Cookies at concrete inputs.
use conduit_bmc.Base.{
  ltb, if◌then◌else◌, Text, str, same, ok, ◌+◌, ◌≡◌, refl, inr, true, none, some, [], ◌∷◌, ◌++◌,
}
use conduit_bmc.Auth.Bearer.{extract_jwt_from_auth_header}
use conduit_bmc.Gateway.{Context}
use conduit_bmc.Sessions.{Store}
use conduit_bmc.Web.{Request, cookie_value}
use conduit_bmc.Web.Claims.{Codec, JwtClaims, extract_jwt_claims, split, payload_of}
use conduit_bmc.Web.Cookies.{Cookie, cookie_name, default_session_duration}
use conduit_bmc.Web.Interceptors.{jwt_of_header, auth_interceptor, session_interceptor}
use conduit_bmc.Web.Returned.{auth_interceptor-session_interceptor}

abbrev claims : JwtClaims
claims = record { customer_id = str "ann"; email = []; expires_at = 100; issued_at = 1 }

abbrev codec : Codec
codec = record { decode_url = λ t. some t; read_claims = λ bytes. some claims }

abbrev browser : Request
browser = record {
  cookies = (str "theme", str "dark") ∷ (str "gateway_session", str "w1") ∷ [];
  session_id_header = [];
  is_tls = true;
  forwarded_proto = [];
  url_scheme = [];
}

abbrev jwt : Text
jwt = str "a.b.c"

reads_claims : extract_jwt_claims codec jwt ≡ ok claims
unfolding extract_jwt_claims split payload_of
reads_claims = refl

no_header : jwt_of_header [] ≡ none
unfolding jwt_of_header extract_jwt_from_auth_header
no_header = refl

has_cookie : cookie_value cookie_name browser.cookies ≡ some (str "w1")
unfolding cookie_value same
has_cookie = refl

abbrev ctx : Context
ctx = record { token = none; claims = none; server_context = none }

abbrev procedure : Text
procedure = str "/gateway.v1.GatewayService/CreateVNCSession"

auth_interceptor-session_interceptor_example :
    (cookie : Cookie) × (after : Store) × (session_interceptor codec 5 6
        (some (str "w1"))
        true
        procedure
        (str "Bearer " ++ jwt)
        none
        (str "vnc-1")
        (str "s1")
        []
      ≡ (some cookie, after))
    × (cookie.name ≡ cookie_name)
    × (cookie.value ≡ str "w1")
    × (cookie.http_only ≡ true)
    × (auth_interceptor 50 [] (some browser) after ctx
        ≡ (if ltb (6 + default_session_duration) 50 then ctx else record ctx { token = some jwt }))
auth_interceptor-session_interceptor_example =
    auth_interceptor-session_interceptor codec 5 6 (str "w1") procedure jwt none (str "vnc-1")
      (str "s1") [] claims 50 browser [] ctx (inr refl) refl reads_claims no_header has_cookie

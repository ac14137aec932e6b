-- ===== src/Web/Cookies.antt =====
-- gateway/internal/session/cookie.go.
use conduit_bmc.Base.{
  if◌then◌else◌, Text, str, same, is_empty, after_prefix, Result, ok, err, ◌>>=◌, ◌>>◌, require,
  or_fail, ℕ, Bool, true, false, not, ◌||◌, none, some, [],
}
use conduit_bmc.Sessions.{Error, session_not_found}
use conduit_bmc.Web.{Request, cookie_value}

abbrev pub cookie_name : Text
cookie_name = str "gateway_session"

-- 24 hours, in nanoseconds and in seconds.
abbrev pub default_session_duration : ℕ
default_session_duration = 86400000000000

abbrev pub default_session_seconds : ℕ
default_session_seconds = 86400

pub data SameSite : Type 0 where
  lax strict : SameSite

-- A cookie whose age is negative is deleted by the browser.
pub data MaxAge : Type 0 where
  seconds : ℕ → MaxAge
  deleted : MaxAge

pub record Cookie : Type 0 where
  pub name : Text
  pub value : Text
  pub path : Text
  pub max_age : MaxAge
  pub http_only : Bool
  pub secure : Bool
  pub same_site : SameSite

unfoldable pub same_site_mode : Bool → SameSite
same_site_mode secure = if not secure then lax else strict

unfoldable pub create_session_cookie_with_secure : Text → ℕ → Bool → Cookie
unfolding same_site_mode
create_session_cookie_with_secure session_id max_age secure = record {
  name = cookie_name;
  value = session_id;
  path = str "/";
  max_age = seconds max_age;
  http_only = true;
  secure = secure;
  same_site = same_site_mode secure;
}

unfoldable pub create_session_cookie : Text → ℕ → Cookie
create_session_cookie session_id max_age = create_session_cookie_with_secure session_id max_age true

-- The request came over HTTPS, at the gateway or at the proxy before it.
unfoldable pub is_https : Request → Bool
is_https r =
    r.is_tls
    || (same r.forwarded_proto (str "https")
        || elim (after_prefix (str "https") r.url_scheme) [ some rest ↦ true | none ↦ false ])

unfoldable pub create_session_cookie_for_request : Text → ℕ → Request → Cookie
unfolding is_https
create_session_cookie_for_request session_id max_age r =
    create_session_cookie_with_secure session_id max_age (is_https r)

unfoldable pub create_session_cookie_insecure : Text → ℕ → Cookie
create_session_cookie_insecure session_id max_age = record {
  name = cookie_name;
  value = session_id;
  path = str "/";
  max_age = seconds max_age;
  http_only = true;
  secure = false;
  same_site = lax;
}

unfoldable pub delete_session_cookie : Cookie
delete_session_cookie = record {
  name = cookie_name;
  value = [];
  path = str "/";
  max_age = deleted;
  http_only = true;
  secure = true;
  same_site = strict;
}

unfoldable pub get_session_id_from_cookie : Request → Result Error Text
unfolding cookie_value
get_session_id_from_cookie r = do
  value ← or_fail (cookie_value cookie_name r.cookies) session_not_found
  require (not (is_empty value)) session_not_found
  ok value

-- The header is for tests.
unfoldable pub get_session_id_from_request : Request → Result Error Text
unfolding get_session_id_from_cookie
get_session_id_from_request r = elim (get_session_id_from_cookie r) [
  | ok session_id ↦ ok session_id
  | err f ↦ if is_empty r.session_id_header then err session_not_found else ok r.session_id_header
]

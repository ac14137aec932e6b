-- ===== src/Web.antt =====
-- gateway/internal/session and gateway/internal/gateway: the cookies that take a browser from a
-- console's creation to its calls. `net/http` parses the request; an absent header is empty.
pub mod Claims
pub mod Cookies
pub mod Interceptors
pub mod Middleware
pub mod Returned
mod Tests
use conduit_bmc.Base.{if◌then◌else◌, Text, same, Bool, Option, none, some, List, [], ◌∷◌}

-- What the code reads of an `http.Request`.
pub record Request : Type 0 where
  pub cookies : List (Text × Text)
  pub session_id_header : Text
  pub is_tls : Bool
  pub forwarded_proto : Text
  pub url_scheme : Text

-- `Request.Cookie`: the value of the first cookie of the name.
unfoldable pub cookie_value : Text → List (Text × Text) → Option Text
cookie_value name [] = none
cookie_value name ((n, v) ∷ cs) =
    let rest = cookie_value name cs in if same n name then some v else rest

-- ===== src/Manager/Access.antt =====
-- manager/internal/manager/manager_handlers.go: who is let in.
pub mod Login
use conduit_bmc.Base.{
  ◌>>=◌, ◌>>◌, ltb, if◌then◌else◌, length, take, drop, Text, str, same, is_empty, Result, ok, err,
  require, or_fail, ℕ, ◌+◌, ◌/◌, Bool, true, false, not, ◌&&◌, ◌||◌, Option, none, some, List, [],
  ◌∷◌, ◌++◌,
}
use conduit_bmc.Auth.Context.{AuthClaims}
use conduit_bmc.Auth.Crypto.{Crypto}
use conduit_bmc.Auth.Token.{Customer, day, generate_token, validate_token}
use conduit_bmc.Manager.{
  Context, Failure, replaced, missing_authorization_header, invalid_header_format, invalid_token,
  generate_token_failed, refresh_not_implemented,
}

-- Authentication and the system's status need no token.
unfoldable pub is_open : Text → Bool
is_open procedure =
    same procedure (str "/manager.v1.BMCManagerService/Authenticate")
    || same procedure (str "/manager.v1.BMCManagerService/GetSystemStatus")

-- What stands behind "Bearer ", if that is something.
unfoldable pub bearer_token : Text → Option Text
bearer_token header =
    if ltb 7 (length header) && same (take 7 header) (str "Bearer ")
    then some (drop 7 header)
    else none

unfoldable pub is_admin_email : List Text → Text → Bool
is_admin_email [] email = false
is_admin_email (admin_email ∷ emails) email =
    if same admin_email email then true else is_admin_email emails email

pub record AuthenticateResponse : Type 0 where
  pub access_token : Text
  pub refresh_token : Text
  pub expires_at : ℕ
  pub customer_id : Text
  pub customer_email : Text
  pub customer_created_at : ℕ

module _ (c : Crypto) (key : Text) where
  unfoldable pub admitted : ℕ → Text → Result Failure Context
  unfolding bearer_token
  admitted now header = do
    require (not (is_empty header)) missing_authorization_header
    token ← or_fail (bearer_token header) invalid_header_format
    claims ← replaced (validate_token c key now token) invalid_token
    ok (record {
      claims = some claims;
      customer_id = some claims.customer_id;
      customer_email = some claims.email;
    })

  -- The context with which the method is called, or the failure that is returned in its place.
  unfoldable pub auth_interceptor : ℕ → Text → Text → Context → Result Failure Context
  unfolding is_open admitted
  auth_interceptor now procedure header ctx =
      if is_open procedure then ok ctx else admitted now header

  -- No credentials are asked for. The readings of the clock and the two random ids are given.
  unfoldable pub authenticate :
      List Text → ℕ → ℕ → ℕ → List ℕ → List ℕ → Text → Result Failure AuthenticateResponse
  unfolding is_admin_email
  authenticate admin_emails exp_time iat_time now uuid refresh_uuid email = do
    access_token ←
        replaced
          (generate_token c key exp_time iat_time uuid (record {
            id = email;
            email = email;
            api_key = [];
            is_admin = is_admin_email admin_emails email;
            created_at = 0;
          }))
          generate_token_failed
    ok (record {
      access_token = access_token;
      refresh_token = str "refresh_" ++ c.print_uuid refresh_uuid;
      expires_at = now + day;
      customer_id = email;
      customer_email = email;
      customer_created_at = now;
    })

unfoldable pub refresh_token : Text → Result Failure AuthenticateResponse
refresh_token request = err refresh_not_implemented

-- ===== src/Manager/Access/Login.antt =====
-- Who has authenticated is let in.
use conduit_bmc.Base.{
  length, Text, str, same, is_empty, ok, ℕ, ◌+◌, ◌*◌, ◌/◌, ◌<◌, ◌≡◌, false, some, List, [], ◌∷◌,
  ◌++◌, arith,
}
use conduit_bmc.Auth.Crypto.{Crypto, IsLawful, second}
use conduit_bmc.Auth.Token.{day}
use conduit_bmc.Auth.Token.Login.{validate-generate_token}
use conduit_bmc.Manager.{Context}
use conduit_bmc.Manager.Access.{
  AuthenticateResponse, auth_interceptor, authenticate, admitted, bearer_token, is_open,
  is_admin_email,
}

bearer_read :
    (token : Text) → is_empty token ≡ false → bearer_token (str "Bearer " ++ token) ≡ some token
unfolding bearer_token same
bearer_read [] h = cc
bearer_read (x ∷ token) h = ground arith

-- A request with the access token that `Authenticate` has returned is let in until the token expires,
-- as the customer who authenticated, who is an administrator exactly if the list has the address.
pub auth_interceptor-authenticate :
    (c : Crypto) (laws : IsLawful c) (key : Text) (admin_emails : List Text)
    (exp_time iat_time now : ℕ) (uuid refresh_uuid : List ℕ) (email : Text) (at : ℕ)
    (procedure : Text) (ctx : Context)
    → is_empty key ≡ false
    → length uuid ≡ 16
    → at < (exp_time + day) / second * second
    → is_open procedure ≡ false
    → (response : AuthenticateResponse) × (authenticate c key admin_emails exp_time iat_time now
          uuid refresh_uuid email
        ≡ ok response)
      × (auth_interceptor c key at procedure (str "Bearer " ++ response.access_token) ctx
          ≡ ok (record {
            claims = some (record {
              customer_id = email;
              email = email;
              is_admin = is_admin_email admin_emails email;
              jti = uuid;
            });
            customer_id = some email;
            customer_email = some email;
          }))
unfolding authenticate auth_interceptor admitted
auth_interceptor-authenticate c laws key admins exp iat now uuid refresh email at procedure ctx k u
      l p =
    let (token, filled, generated, valid) =
      validate-generate_token c laws key exp iat at uuid
        (record {
          id = email;
          email = email;
          api_key = [];
          is_admin = is_admin_email admins email;
          created_at = 0;
        })
        k u l in
    let response : AuthenticateResponse = record {
      access_token = token;
      refresh_token = str "refresh_" ++ c.print_uuid refresh;
      expires_at = now + day;
      customer_id = email;
      customer_email = email;
      customer_created_at = now;
    } in
    (response, ground (arith, generated), ground (arith, p, bearer_read token filled, valid))

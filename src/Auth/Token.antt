-- ===== src/Auth/Token.antt =====
-- manager/pkg/auth/auth.go and manager/pkg/auth/server_context.go: the tokens that the manager issues
-- and validates. Random bytes and the clock's readings are arguments.
pub mod Key
pub mod Login
pub mod RoundTrip
use conduit_bmc.Base.{
  ltb, if◌then◌else◌, length, take, drop, replicate, Text, str, is_empty, lookup, Result, ok, err,
  ◌>>=◌, ◌>>◌, require, or_fail, ℕ, ◌+◌, ◌-◌, ◌*◌, ◌/◌, Bool, false, not, Option, none, some, List,
  [], ◌∷◌, ◌++◌,
}
use conduit_bmc.Types.Endpoints.{BmcControlEndpoint, bmc_ipmi}
use conduit_bmc.Types.Server.{Server, get_primary_control_endpoint}
use conduit_bmc.Auth.Context.{ServerContext, AuthClaims}
use conduit_bmc.Auth.Crypto.{Crypto, Claim, text, flag, number, other, Claims, second}

pub record Customer : Type 0 where
  pub id : Text
  pub email : Text
  pub api_key : Text
  pub is_admin : Bool
  pub created_at : ℕ

pub data Error : Type 0 where
  secret_empty marshal_failed bad_base64 ciphertext_short decrypt_failed unmarshal_failed : Error
  context_expired parse_failed bad_customer_id bad_email bad_jti bad_jti_format : Error

abbrev pub hour : ℕ
hour = 3600000000000

abbrev pub day : ℕ
day = 24 * hour

-- The first 32 bytes of the key, or the key padded with zeros.
unfoldable pub encryption_key : Text → List ℕ
encryption_key key =
    if ltb 32 (length key)
    then take 32 key
    else if ltb (length key) 32
    then key ++ replicate (32 - length key) 0
    else key

-- The address and the type of the primary endpoint, if there is one.
unfoldable pub bmc_of : Text → Option BmcControlEndpoint → Text × Text
bmc_of bmc_type none = ([], bmc_type)
bmc_of bmc_type (some e) = (e.endpoint, if is_empty e.bmc_type then bmc_type else e.bmc_type)

unfoldable pub create_server_context : {D : Type 0} → ℕ → Server D → List Text → ServerContext
unfolding bmc_of
create_server_context now server permissions =
    let default_type =
      if is_empty server.primary_protocol then bmc_ipmi else server.primary_protocol in
    let (bmc_endpoint, bmc_type) = bmc_of default_type (get_primary_control_endpoint server) in
    record {
      server_id = server.id;
      customer_id = server.customer_id;
      bmc_endpoint = bmc_endpoint;
      bmc_type = bmc_type;
      features = server.features;
      datacenter_id = server.datacenter_id;
      permissions = permissions;
      issued_at = now;
      expires_at = now + hour;
    }

unfoldable pub text_claim : Text → Error → Claims → Result Error Text
text_claim key e claims = elim (lookup key claims) [ some (text t) ↦ ok t | _ ↦ err e ]

-- `isAdmin, _ := claims["is_admin"].(bool)`
unfoldable pub is_admin_claim : Claims → Bool
is_admin_claim claims = elim (lookup (str "is_admin") claims) [ some (flag b) ↦ b | _ ↦ false ]

module _ (c : Crypto) where
  unfoldable pub encrypt_server_context : Text → List ℕ → ServerContext → Result Error Text
  encrypt_server_context key nonce sc = do
    context_json ← or_fail (c.marshal sc) marshal_failed
    ok (c.base64_encode (nonce ++ c.seal (encryption_key key) nonce context_json))

  -- The nonce of GCM has twelve bytes.
  unfoldable pub decrypt_server_context : Text → ℕ → Text → Result Error ServerContext
  decrypt_server_context key now encrypted = do
    ciphertext ← or_fail (c.base64_decode encrypted) bad_base64
    require (not (ltb (length ciphertext) 12)) ciphertext_short
    context_json ←
        or_fail (c.unseal (encryption_key key) (take 12 ciphertext) (drop 12 ciphertext))
          decrypt_failed
    sc ← or_fail (c.unmarshal context_json) unmarshal_failed
    require (not (ltb sc.expires_at now)) context_expired
    ok sc

  unfoldable pub generate_token : Text → ℕ → ℕ → List ℕ → Customer → Result Error Text
  generate_token key exp_time iat_time uuid customer = do
    require (not (is_empty key)) secret_empty
    ok (
        c.sign key (
          (str "customer_id", text customer.id)
          ∷ (str "email", text customer.email)
          ∷ (str "is_admin", flag customer.is_admin)
          ∷ (str "jti", text (c.print_uuid uuid))
          ∷ (str "exp", number ((exp_time + day) / second))
          ∷ (str "iat", number (iat_time / second))
          ∷ []))

  unfoldable pub server_claims : Customer → List ℕ → ℕ → ℕ → Text → Claims
  server_claims customer uuid iat_time exp_time encrypted =
      (str "customer_id", text customer.id)
      ∷ (str "email", text customer.email)
      ∷ (str "jti", text (c.print_uuid uuid))
      ∷ (str "iat", number (iat_time / second))
      ∷ (str "exp", number ((exp_time + hour) / second))
      ∷ (str "server_context", text encrypted)
      ∷ []

  unfoldable pub generate_server_token :
      {D : Type 0}
      → Text
      → ℕ
      → ℕ
      → ℕ
      → List ℕ
      → List ℕ
      → Customer
      → Server D
      → List Text
      → Result Error Text
  unfolding server_claims
  generate_server_token key now iat_time exp_time nonce uuid customer server permissions = do
    require (not (is_empty key)) secret_empty
    encrypted ← encrypt_server_context key nonce (create_server_context now server permissions)
    ok (c.sign key (server_claims customer uuid iat_time exp_time encrypted))

  -- The claims that both validations extract. The id is kept as the sixteen bytes that it prints.
  unfoldable pub auth_claims : Claims → Result Error AuthClaims
  auth_claims claims = do
    customer_id ← text_claim (str "customer_id") bad_customer_id claims
    email ← text_claim (str "email") bad_email claims
    jti ← text_claim (str "jti") bad_jti claims
    uuid ← or_fail (c.parse_uuid jti) bad_jti_format
    ok (record {
      customer_id = customer_id;
      email = email;
      is_admin = is_admin_claim claims;
      jti = uuid;
    })

  unfoldable pub validate_token : Text → ℕ → Text → Result Error AuthClaims
  validate_token key now token = do
    claims ← or_fail (c.parse now key token) parse_failed
    auth_claims claims

  -- The server context, if the claim is there and is a text that is not empty.
  unfoldable pub context_claim : Text → ℕ → Claims → Result Error (Option ServerContext)
  context_claim key now claims = elim (lookup (str "server_context") claims) [
    | some (text encrypted) ↦
        if is_empty encrypted
        then ok none
        else (decrypt_server_context key now encrypted >>= λ sc. ok (some sc))
    | _ ↦ ok none
  ]

  unfoldable pub validate_server_token :
      Text → ℕ → ℕ → Text → Result Error (AuthClaims × Option ServerContext)
  validate_server_token key now later token = do
    claims ← or_fail (c.parse now key token) parse_failed
    who ← auth_claims claims
    sc ← context_claim key later claims
    ok (who, sc)

-- ===== src/Auth/Tests.antt =====
-- Tokens at concrete inputs.
use conduit_bmc.Base.{
  replicate, Text, str, same, is_empty, lookup, ok, err, ℕ, ◌≡◌, refl, ◌↔◌, true, false, none, some,
  List, [], ◌∷◌, arith,
}
use conduit_bmc.Auth.Bearer.{extract_jwt_from_auth_header, invalid_format, split_first}
use conduit_bmc.Types.Server.{Server}
use conduit_bmc.Auth.Context.{ServerContext, AuthClaims}
use conduit_bmc.Auth.Crypto.{Crypto, Claims, text, number}
use conduit_bmc.Auth.Sample.{sample, sample-IsLawful}
use conduit_bmc.Auth.Token.{
  Customer, create_server_context, generate_server_token, auth_claims, validate_server_token,
  text_claim, is_admin_claim,
}
use conduit_bmc.Auth.Token.RoundTrip.{validate-generate_server_token}
use conduit_bmc.Auth.Decryptor.{extract_server_context_from_jwt}
use conduit_bmc.Auth.Decryptor.Agrees.{extract-validate_server_token_iff}

other_scheme : extract_jwt_from_auth_header (str "bearer ey.1") ≡ err invalid_format
unfolding extract_jwt_from_auth_header split_first same
other_scheme = refl

abbrev server : Server (Unit {0})
server = record {
  id = str "s1";
  customer_id = str "ann";
  datacenter_id = str "dc";
  control_endpoints = [];
  primary_protocol = [];
  sol_endpoint = none;
  vnc_endpoint = none;
  features = [];
  status = str "active";
  metadata = [];
  discovery_metadata = none;
  created_at = 1;
  updated_at = 1;
}

abbrev customer : Customer
customer = record {
  id = str "ann";
  email = str "ann@example.com";
  api_key = [];
  is_admin = true;
  created_at = 0;
}

abbrev permissions : List Text
permissions = str "power:read" ∷ []

abbrev context : ServerContext
context = create_server_context 5 server permissions

abbrev crypto : Crypto
crypto = sample context

abbrev nonce : List ℕ
nonce = replicate 12 9

abbrev uuid : List ℕ
uuid = replicate 16 1

abbrev who : AuthClaims
who = record {
  customer_id = str "ann";
  email = str "ann@example.com";
  is_admin = false;
  jti = uuid;
}

marshals : crypto.marshal context ≡ some []
marshals = refl

unmarshals : crypto.unmarshal [] ≡ some context
unmarshals = refl

validate-generate_server_token_example :
    (token : Text) × (is_empty token ≡ false)
    × (generate_server_token crypto (str "secret") 5 5 5 nonce uuid customer server permissions
        ≡ ok token)
    × (validate_server_token crypto (str "secret") 8 9 token ≡ ok (who, some context))
validate-generate_server_token_example =
    validate-generate_server_token crypto (sample-IsLawful context) (str "secret") 5 5 5 nonce uuid
      customer server permissions [] 8 9 refl refl refl marshals unmarshals (omega arith)
      (omega arith)

-- A token signed for "ann".
abbrev some_claims : Claims
some_claims =
    (str "exp", number 10)
    ∷ (str "customer_id", text (str "ann"))
    ∷ (str "email", text [])
    ∷ (str "jti", text uuid)
    ∷ (str "server_context", text (replicate 12 9))
    ∷ []

abbrev token : Text
token = crypto.sign (str "secret") some_claims

abbrev claimed : AuthClaims
claimed = record { customer_id = str "ann"; email = []; is_admin = false; jti = uuid }

expires : lookup (str "exp") some_claims ≡ some (number 10)
unfolding lookup same
expires = refl

parses : crypto.parse 7 (str "secret") token ≡ some some_claims
parses = (sample-IsLawful context).parse-sign 7 (str "secret") some_claims 10 expires (omega arith)

claims_of_ann : auth_claims crypto some_claims ≡ ok claimed
unfolding auth_claims text_claim is_admin_claim lookup same
claims_of_ann = refl

extract-validate_server_token_iff_example :
    (extract_server_context_from_jwt crypto (str "secret") 7 8 token ≡ ok context)
    ↔ (validate_server_token crypto (str "secret") 7 8 token ≡ ok (claimed, some context))
extract-validate_server_token_iff_example =
    extract-validate_server_token_iff crypto (str "secret") 7 8 token some_claims claimed context
      parses claims_of_ann

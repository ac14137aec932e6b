-- ===== src/Auth/Crypto.antt =====
-- What the tokens rely on and this repository does not hold: AES-256 in GCM mode and base64 of Go's
-- library, its JSON encoding of server contexts, github.com/golang-jwt/jwt and github.com/google/uuid.
use conduit_bmc.Base.{
  length, Text, str, is_empty, Map, lookup, ℕ, ◌*◌, ◌<◌, ◌≡◌, Bool, false, Option, some, List,
}
use conduit_bmc.Auth.Context.{ServerContext}

-- A value in a JWT's claims. `other` is every type that the code does not ask for.
pub data Claim : Type 0 where
  text : Text → Claim
  flag : Bool → Claim
  number : ℕ → Claim
  other : Claim

-- Seconds, in nanoseconds.
abbrev pub second : ℕ
second = 1000000000

abbrev pub Claims : Type 0
Claims = Map Claim

-- `seal key nonce text` and `open key nonce sealed`; `unmarshal` of bytes that are no server context
-- is none. `sign` is HS256, and `parse` is none unless the method is HMAC, the signature fits and the
-- token has not expired at the time given.
pub record Crypto : Type 0 where
  pub seal : List ℕ → List ℕ → List ℕ → List ℕ
  pub unseal : List ℕ → List ℕ → List ℕ → Option (List ℕ)
  pub base64_encode : List ℕ → Text
  pub base64_decode : Text → Option (List ℕ)
  pub marshal : ServerContext → Option (List ℕ)
  pub unmarshal : List ℕ → Option ServerContext
  pub sign : Text → Claims → Text
  pub parse : ℕ → Text → Text → Option Claims
  pub print_uuid : List ℕ → Text
  pub parse_uuid : Text → Option (List ℕ)

-- The documented behaviour on which the round trips rest.
pub record IsLawful (c : Crypto) : Type 0 where
  pub unseal-seal :
      (key nonce bytes : List ℕ)
      → length key ≡ 32
      → length nonce ≡ 12
      → c.unseal key nonce (c.seal key nonce bytes) ≡ some bytes
  pub decode-encode : (bytes : List ℕ) → c.base64_decode (c.base64_encode bytes) ≡ some bytes
  pub encode_not_empty :
      (bytes : List ℕ) → 0 < length bytes → is_empty (c.base64_encode bytes) ≡ false
  pub parse-sign :
      (now : ℕ) (key : Text) (claims : Claims) (expires_at : ℕ)
      → lookup (str "exp") claims ≡ some (number expires_at)
      → now < expires_at * second
      → c.parse now key (c.sign key claims) ≡ some claims
  pub sign_not_empty : (key : Text) (claims : Claims) → is_empty (c.sign key claims) ≡ false
  pub parse-print_uuid :
      (uuid : List ℕ) → length uuid ≡ 16 → c.parse_uuid (c.print_uuid uuid) ≡ some uuid

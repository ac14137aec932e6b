-- ===== src/Auth/Decryptor.antt =====
-- gateway/pkg/server_context/decrypt.go: the gateway's own way from a token to its server context.
pub mod Agrees
use conduit_bmc.Base.{
  ◌>>=◌, ◌>>◌, ltb, if◌then◌else◌, length, take, drop, Text, str, is_empty, lookup, Result, ok, err,
  require, or_fail, ℕ, not, some,
}
use conduit_bmc.Auth.Context.{ServerContext}
use conduit_bmc.Auth.Crypto.{Crypto, text, Claims}
use conduit_bmc.Auth.Token.{encryption_key}

pub data Error : Type 0 where
  parse_failed no_context bad_base64 ciphertext_short decrypt_failed unmarshal_failed : Error
  context_expired : Error

-- `NewServerContextDecryptor` makes the key as the manager does, and keeps the secret to verify.
unfoldable pub decrypt_server_context : Crypto → Text → Text → Result Error ServerContext
decrypt_server_context c key encrypted = do
  ciphertext ← or_fail (c.base64_decode encrypted) bad_base64
  require (not (ltb (length ciphertext) 12)) ciphertext_short
  context_json ←
      or_fail (c.unseal (encryption_key key) (take 12 ciphertext) (drop 12 ciphertext))
        decrypt_failed
  or_fail (c.unmarshal context_json) unmarshal_failed

unfoldable pub context_text : Claims → Result Error Text
context_text claims = elim (lookup (str "server_context") claims) [
  | some (text encrypted) ↦ if is_empty encrypted then err no_context else ok encrypted
  | _ ↦ err no_context
]

unfoldable pub extract_server_context_from_jwt :
    Crypto → Text → ℕ → ℕ → Text → Result Error ServerContext
extract_server_context_from_jwt c key now later token = do
  claims ← or_fail (c.parse now key token) parse_failed
  encrypted ← context_text claims
  sc ← decrypt_server_context c key encrypted
  require (not (ltb sc.expires_at later)) context_expired
  ok sc

-- ===== src/Auth/Decryptor/Agrees.antt =====
-- The gateway's decryptor against the manager's validation.
use conduit_bmc.Base.{Text, ℕ, ◌≡◌, ◌↔◌, some, arith}
use conduit_bmc.Base.{ok}
use conduit_bmc.Auth.Context.{ServerContext, AuthClaims}
use conduit_bmc.Auth.Crypto.{Crypto, Claims}
use conduit_bmc.Auth.Decryptor.{
  context_text, decrypt_server_context, extract_server_context_from_jwt,
}
use conduit_bmc.Auth.Token
use conduit_bmc.Auth.Token.{validate_server_token, auth_claims, context_claim, encryption_key}

module _ (c : Crypto) where
  -- For a token whose signature and claims are valid, the gateway's decryptor returns a server context
  -- exactly when the manager's validation returns the same one.
  pub extract-validate_server_token_iff :
      (key : Text) (now later : ℕ) (token : Text) (claims : Claims) (who : AuthClaims)
      (sc : ServerContext)
      → c.parse now key token ≡ some claims
      → auth_claims c claims ≡ ok who
      → (extract_server_context_from_jwt c key now later token ≡ ok sc)
        ↔ (validate_server_token c key now later token ≡ ok (who, some sc))
  unfolding extract_server_context_from_jwt validate_server_token context_claim context_text
      Token.decrypt_server_context decrypt_server_context
  extract-validate_server_token_iff key now later token claims who sc p a =
      (λ h. ground arith, λ h. ground arith)

-- ===== src/Gateway/Access/Claims.antt =====
-- The claims that a method finds in its context.
use conduit_bmc.Base.{ℕ, ◌≡◌, false, Option, none, some, ok, Text, arith}
use conduit_bmc.Auth.Context.{ServerContext, AuthClaims, manager_claims}
use conduit_bmc.Gateway.{Context}
use conduit_bmc.Gateway.Access.{
  Validator, token_validation, validated, enriched, token_present, is_exempt,
}

enriched-claims :
    (ctx after : Context) (v : Option (AuthClaims × Option ServerContext))
    → enriched ctx v ≡ ok after
    → (c : AuthClaims) × (after.claims ≡ some (manager_claims c))
unfolding enriched
enriched-claims ctx after none h = cc
enriched-claims ctx after (some (c, none)) h = (c, ground arith)
enriched-claims ctx after (some (c, some sc)) h = (c, ground arith)

module _ (validate : Validator) where
  validated-claims :
      (now : ℕ) (ctx after : Context) (t : Option Text)
      → validated validate now ctx t ≡ ok after
      → (c : AuthClaims) × (after.claims ≡ some (manager_claims c))
  unfolding validated
  validated-claims now ctx after none h = cc
  validated-claims now ctx after (some t) h = enriched-claims ctx after (validate now t) h

  -- Behind the interceptor, a method that needs a token finds claims of the manager's type.
  pub token_validation-claims :
      (now : ℕ) (procedure : Text) (ctx after : Context)
      → is_exempt procedure ≡ false
      → token_validation validate now procedure ctx ≡ ok after
      → (c : AuthClaims) × (after.claims ≡ some (manager_claims c))
  unfolding token_validation
  token_validation-claims now procedure ctx after x h =
      validated-claims now ctx after (token_present ctx.token) (ground (arith, x, h))

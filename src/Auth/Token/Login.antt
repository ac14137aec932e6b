-- ===== src/Auth/Token/Login.antt =====
-- An access token that the manager has issued is validated to the customer for whom it was issued.
use conduit_bmc.Base.{
  length, Text, str, same, is_empty, lookup, ok, ℕ, ◌+◌, ◌*◌, ◌/◌, ◌<◌, ◌≡◌, refl, false, some,
  List, [], ◌∷◌, arith,
}
use conduit_bmc.Auth.Crypto.{Crypto, IsLawful, Claims, text, flag, number, second}
use conduit_bmc.Auth.Token.{
  Customer, day, text_claim, is_admin_claim, auth_claims, generate_token, validate_token,
}

module _ (c : Crypto) (laws : IsLawful c) where
  abbrev claims_for : ℕ → ℕ → List ℕ → Customer → Claims
  claims_for exp_time iat_time uuid customer =
      (str "customer_id", text customer.id)
      ∷ (str "email", text customer.email)
      ∷ (str "is_admin", flag customer.is_admin)
      ∷ (str "jti", text (c.print_uuid uuid))
      ∷ (str "exp", number ((exp_time + day) / second))
      ∷ (str "iat", number (iat_time / second))
      ∷ []

  claims_read :
      (exp_time iat_time : ℕ) (uuid : List ℕ) (customer : Customer)
      → length uuid ≡ 16
      → auth_claims c (claims_for exp_time iat_time uuid customer)
        ≡ ok (record {
          customer_id = customer.id;
          email = customer.email;
          is_admin = customer.is_admin;
          jti = uuid;
        })
  unfolding auth_claims text_claim is_admin_claim lookup same
  claims_read exp_time iat_time uuid customer h = ground (arith, laws.parse-print_uuid uuid h)

  exp_read :
      (exp_time iat_time : ℕ) (uuid : List ℕ) (customer : Customer)
      → lookup (str "exp") (claims_for exp_time iat_time uuid customer)
        ≡ some (number ((exp_time + day) / second))
  unfolding lookup same
  exp_read exp_time iat_time uuid customer = refl

  -- An access token is not empty, and it is validated, until it expires, to its customer's id, email
  -- and rights, and to the id of the token.
  pub validate-generate_token :
      (key : Text) (exp_time iat_time now : ℕ) (uuid : List ℕ) (customer : Customer)
      → is_empty key ≡ false
      → length uuid ≡ 16
      → now < (exp_time + day) / second * second
      → (token : Text) × (is_empty token ≡ false)
        × (generate_token c key exp_time iat_time uuid customer ≡ ok token)
        × (validate_token c key now token
            ≡ ok (record {
              customer_id = customer.id;
              email = customer.email;
              is_admin = customer.is_admin;
              jti = uuid;
            }))
  unfolding generate_token validate_token
  validate-generate_token key exp_time iat_time now uuid customer k u l =
      let claims = claims_for exp_time iat_time uuid customer in
      let parsed =
        laws.parse-sign now key claims ((exp_time + day) / second)
          (exp_read exp_time iat_time uuid customer) l in
      (
        c.sign key claims,
        laws.sign_not_empty key claims,
        ground (arith, k),
        ground (arith, parsed, claims_read exp_time iat_time uuid customer u),
      )

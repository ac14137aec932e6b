-- ===== src/Auth/Token/RoundTrip.antt =====
-- A server token that the manager has issued is validated to what it was issued for.
use conduit_bmc.Base.{
  take-length, drop-length, ltb, if◌then◌else◌, length, take, drop, length-append, Text, str, same,
  is_empty, lookup, ok, err, ◌>>=◌, ℕ, ◌+◌, ◌*◌, ◌/◌, ◌≤◌, ◌<◌, ◌≡◌, refl, false, some, List, ◌++◌,
  arith,
}
use conduit_bmc.Types.Server.{Server}
use conduit_bmc.Auth.Context.{ServerContext}
use conduit_bmc.Auth.Crypto.{Crypto, IsLawful, number, second}
use conduit_bmc.Auth.Token.{
  Customer, context_expired, hour, encryption_key, create_server_context, text_claim,
  is_admin_claim, encrypt_server_context, decrypt_server_context, generate_server_token,
  server_claims, auth_claims, context_claim, validate_server_token,
}
use conduit_bmc.Auth.Token.Key.{length-encryption_key}

module _ (c : Crypto) (laws : IsLawful c) where
  -- The bytes that are encoded: the nonce and what is sealed under it.
  abbrev sealed : Text → List ℕ → List ℕ → List ℕ
  sealed key nonce bytes = nonce ++ c.seal (encryption_key key) nonce bytes

  opens :
      (key : Text) (now : ℕ) (nonce bytes : List ℕ) (sc : ServerContext)
      → length nonce ≡ 12
      → c.unmarshal bytes ≡ some sc
      → decrypt_server_context c key now (c.base64_encode (sealed key nonce bytes))
        ≡ (if ltb sc.expires_at now then err context_expired else ok sc)
  unfolding decrypt_server_context
  opens key now nonce bytes sc n u =
      let body = c.seal (encryption_key key) nonce bytes in
      let front : take 12 (sealed key nonce bytes) ≡ nonce = rw (← n) (take-length nonce body) in
      let back : drop 12 (sealed key nonce bytes) ≡ body = rw (← n) (drop-length nonce body) in
      ground (
        arith,
        laws.decode-encode (sealed key nonce bytes),
        length-append nonce body,
        front,
        back,
        laws.unseal-seal (encryption_key key) nonce bytes (length-encryption_key key) n,
        u,
        n,
      )

  encrypts :
      (key : Text) (nonce bytes : List ℕ) (sc : ServerContext)
      → c.marshal sc ≡ some bytes
      → encrypt_server_context c key nonce sc ≡ ok (c.base64_encode (sealed key nonce bytes))
  unfolding encrypt_server_context
  encrypts key nonce bytes sc m = ground (arith, m)

  -- Encrypting a server context and decrypting it with the same secret gives it back until it expires,
  -- when its JSON encoding does.
  pub decrypt-encrypt_server_context :
      (key : Text) (now : ℕ) (nonce bytes : List ℕ) (sc : ServerContext)
      → length nonce ≡ 12
      → c.marshal sc ≡ some bytes
      → c.unmarshal bytes ≡ some sc
      → (encrypted : Text) × (encrypt_server_context c key nonce sc ≡ ok encrypted)
        × (decrypt_server_context c key now encrypted
            ≡ (if ltb sc.expires_at now then err context_expired else ok sc))
  decrypt-encrypt_server_context key now nonce bytes sc n m u = (
    c.base64_encode (sealed key nonce bytes),
    encrypts key nonce bytes sc m,
    opens key now nonce bytes sc n u,
  )

  claims_read :
      (customer : Customer) (uuid : List ℕ) (iat_time exp_time : ℕ) (encrypted : Text)
      → length uuid ≡ 16
      → auth_claims c (server_claims c customer uuid iat_time exp_time encrypted)
        ≡ ok (record {
          customer_id = customer.id;
          email = customer.email;
          is_admin = false;
          jti = uuid;
        })
  unfolding auth_claims server_claims text_claim is_admin_claim lookup same
  claims_read customer uuid iat_time exp_time encrypted h =
      ground (arith, laws.parse-print_uuid uuid h)

  context_read :
      (key : Text) (later : ℕ) (customer : Customer) (uuid : List ℕ) (iat_time exp_time : ℕ)
      (encrypted : Text)
      → is_empty encrypted ≡ false
      → context_claim c key later (server_claims c customer uuid iat_time exp_time encrypted)
        ≡ (decrypt_server_context c key later encrypted >>= λ sc. ok (some sc))
  unfolding context_claim server_claims lookup same
  context_read key later customer uuid iat_time exp_time encrypted h = ground (arith, h)

  exp_read :
      (customer : Customer) (uuid : List ℕ) (iat_time exp_time : ℕ) (encrypted : Text)
      → lookup (str "exp") (server_claims c customer uuid iat_time exp_time encrypted)
        ≡ some (number ((exp_time + hour) / second))
  unfolding server_claims lookup same
  exp_read customer uuid iat_time exp_time encrypted = refl

  context_claim-issued :
      {D : Type 0} (key : Text) (now later : ℕ) (customer : Customer) (uuid nonce bytes : List ℕ)
      (iat_time exp_time : ℕ) (server : Server D) (permissions : List Text)
      → length nonce ≡ 12
      → c.unmarshal bytes ≡ some (create_server_context now server permissions)
      → later ≤ now + hour
      → context_claim c key later (
          server_claims c customer uuid iat_time exp_time
            (c.base64_encode (sealed key nonce bytes)))
        ≡ ok (some (create_server_context now server permissions))
  unfolding create_server_context
  context_claim-issued key now later customer uuid nonce bytes iat_time exp_time server permissions
        n v l =
      let body = c.seal (encryption_key key) nonce bytes in
      let some_bytes : 0 < length (sealed key nonce bytes) =
        omega (arith, length-append nonce body, n) in
      ground (
        arith,
        context_read key later customer uuid iat_time exp_time
            (c.base64_encode (sealed key nonce bytes))
            (laws.encode_not_empty (sealed key nonce bytes) some_bytes),
        opens key later nonce bytes (create_server_context now server permissions) n v,
      )

  -- A server token is not empty, and it is validated, until it and its context expire, to the customer for whom it was
  -- issued, never as an administrator, and to the context of the server for which it was issued.
  pub validate-generate_server_token :
      {D : Type 0} (key : Text) (now iat_time exp_time : ℕ) (nonce uuid : List ℕ)
      (customer : Customer) (server : Server D) (permissions : List Text) (bytes : List ℕ)
      (at later : ℕ)
      → is_empty key ≡ false
      → length nonce ≡ 12
      → length uuid ≡ 16
      → c.marshal (create_server_context now server permissions) ≡ some bytes
      → c.unmarshal bytes ≡ some (create_server_context now server permissions)
      → at < (exp_time + hour) / second * second
      → later ≤ now + hour
      → (token : Text) × (is_empty token ≡ false)
        × (generate_server_token c key now iat_time exp_time nonce uuid customer server permissions
            ≡ ok token)
        × (validate_server_token c key at later token
            ≡ ok (
              record {
                customer_id = customer.id;
                email = customer.email;
                is_admin = false;
                jti = uuid;
              },
              some (create_server_context now server permissions),
            ))
  unfolding generate_server_token validate_server_token
  validate-generate_server_token key now iat_time exp_time nonce uuid customer server permissions
        bytes at later k n u m v t l =
      let sc = create_server_context now server permissions in
      let encrypted = c.base64_encode (sealed key nonce bytes) in
      let claims = server_claims c customer uuid iat_time exp_time encrypted in
      (
        c.sign key claims,
        laws.sign_not_empty key claims,
        ground (arith, k, encrypts key nonce bytes sc m),
        ground (
          arith,
          laws.parse-sign at key claims ((exp_time + hour) / second)
              (exp_read customer uuid iat_time exp_time encrypted) t,
          claims_read customer uuid iat_time exp_time encrypted u,
          context_claim-issued key now later customer uuid nonce bytes iat_time exp_time server
              permissions n v l,
        ),
      )

-- ===== src/Web/Claims.antt =====
-- gateway/internal/session/jwt.go. Go's base64 and JSON are parameters. Times are at least zero, and a
-- token's life is short of the 14 years for which the multiplication by 20 has room.
use conduit_bmc.Base.{
  leb, ◌==◌, if◌then◌else◌, Text, Result, ok, err, ◌>>=◌, or_fail, ℕ, ◌+◌, ◌-◌, ◌*◌, ◌/◌, Option,
  List, [], ◌∷◌,
}

pub record JwtClaims : Type 0 where
  pub customer_id : Text
  pub email : Text
  pub expires_at : ℕ
  pub issued_at : ℕ

pub data Error : Type 0 where
  invalid_format decode_failed parse_failed : Error

-- base64.RawURLEncoding.DecodeString, and json.Unmarshal of claims.
pub record Codec : Type 0 where
  pub decode_url : Text → Option (List ℕ)
  pub read_claims : List ℕ → Option JwtClaims

abbrev onto_first : ℕ → List Text → List Text
onto_first c [] = (c ∷ []) ∷ []
onto_first c (part ∷ parts) = (c ∷ part) ∷ parts

-- `strings.Split` at a separator of one byte.
unfoldable pub split : ℕ → Text → List Text
split sep [] = [] ∷ []
split sep (c ∷ s) = let rest = split sep s in if c == sep then [] ∷ rest else onto_first c rest

unfoldable pub payload_of : List Text → Result Error Text
payload_of (header ∷ payload ∷ signature ∷ []) = ok payload
payload_of parts = err invalid_format

unfoldable pub extract_jwt_claims : Codec → Text → Result Error JwtClaims
unfolding split payload_of
extract_jwt_claims codec token = do
  part ← payload_of (split b'.' token)
  payload ← or_fail (codec.decode_url part) decode_failed
  or_fail (codec.read_claims payload) parse_failed

-- A fifth of the time that is left before the expiry, or behind it where that is past.
unfoldable pub calculate_renewal_time : ℕ → ℕ → ℕ
calculate_renewal_time now expires_at =
    if leb now expires_at
    then expires_at - (expires_at - now) * 20 / 100
    else expires_at + (now - expires_at) * 20 / 100

-- ===== src/Auth/Bearer.antt =====
-- core/auth/jwt_extraction.go: the token of an Authorization header.
use conduit_bmc.Base.{
  ℕ, ◌≡◌, ◌↔◌, ◌==◌, refl, if◌then◌else◌, not, Option, none, some, [], ◌∷◌, ◌++◌, Result, ok,
  require, or_fail, ◌>>=◌, ◌>>◌, Text, str, same, same_iff, is_empty, arith, Option-cases, inl, inr,
}

pub data Error : Type 0 where
  header_empty invalid_format : Error

-- `strings.SplitN(s, sep, 2)` for a separator of one byte: the parts around the first, if there is one.
unfoldable pub split_first : ℕ → Text → Option (Text × Text)
split_first sep [] = none
split_first sep (c ∷ s) =
    let rest = split_first sep s in
    if c == sep
    then some ([], s)
    else elim rest [ none ↦ none | some (front, back) ↦ some (c ∷ front, back) ]

unfoldable pub extract_jwt_from_auth_header : Text → Result Error Text
extract_jwt_from_auth_header header = do
  require (not (is_empty header)) header_empty
  (scheme, token) ← or_fail (split_first b' ' header) invalid_format
  require (same scheme (str "Bearer")) invalid_format
  ok token

split_first-append :
    (sep : ℕ) (s front back : Text)
    → split_first sep s ≡ some (front, back)
    → s ≡ front ++ (sep ∷ back)
unfolding split_first
split_first-append sep [] front back h = cc
split_first-append sep (c ∷ s) front back h = elim (Option-cases (split_first sep s)) [
  | inl e ↦ ground (arith, e, h)
  | inr ((f, b), e) ↦ ground (arith, e, h, split_first-append sep s f b e)
]

accepted_bearer :
    (header token : Text)
    → extract_jwt_from_auth_header header ≡ ok token
    → header ≡ str "Bearer " ++ token
unfolding extract_jwt_from_auth_header
accepted_bearer header token h = elim (Option-cases (split_first b' ' header)) [
  | inl e ↦ ground (arith, e, h)
  | inr ((scheme, rest), e) ↦
      ground
        (arith, e, h, split_first-append b' ' header scheme rest e, same_iff scheme (str "Bearer"))
]

bearer_accepted : (token : Text) → extract_jwt_from_auth_header (str "Bearer " ++ token) ≡ ok token
unfolding extract_jwt_from_auth_header split_first same
bearer_accepted token = refl

-- `ExtractJWTFromAuthHeader` returns a token exactly for the header that is "Bearer", one space, and
-- that token, which may be empty.
pub extract_jwt_from_auth_header_iff :
    (header token : Text)
    → (extract_jwt_from_auth_header header ≡ ok token) ↔ (header ≡ str "Bearer " ++ token)
extract_jwt_from_auth_header_iff header token =
    (accepted_bearer header token, λ e. rw e (bearer_accepted token))

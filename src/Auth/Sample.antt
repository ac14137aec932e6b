-- ===== src/Auth/Sample.antt =====
-- A token format that meets the laws of Auth/Crypto, for runs: nothing is hidden, and a token is its
-- claims, each text behind its length.
use conduit_bmc.Base.{
  take-length, drop-length, ltb, if◌then◌else◌, length, take, drop, Text, str, is_empty, lookup, ℕ,
  zero, suc, ◌*◌, ◌<◌, ◌≡◌, refl, Bool, true, false, Option, none, some, List, [], ◌∷◌, ◌++◌, arith,
}
use conduit_bmc.Auth.Context.{ServerContext}
use conduit_bmc.Auth.Crypto.{Crypto, IsLawful, Claim, text, flag, number, other, Claims, second}

encode_claim : Claim → List ℕ → List ℕ
encode_claim (text t) rest = 0 ∷ length t ∷ t ++ rest
encode_claim (flag true) rest = 1 ∷ rest
encode_claim (flag false) rest = 2 ∷ rest
encode_claim (number n) rest = 3 ∷ n ∷ rest
encode_claim other rest = 4 ∷ rest

encode_all : Claims → List ℕ
unfolding encode_claim
encode_all [] = []
encode_all ((k, v) ∷ claims) = length k ∷ k ++ encode_claim v (encode_all claims)

-- A claim and the bytes behind it.
claim_at : List ℕ → Claim × List ℕ
claim_at (zero ∷ n ∷ rest) = (text (take n rest), drop n rest)
claim_at (suc zero ∷ rest) = (flag true, rest)
claim_at (suc (suc zero) ∷ rest) = (flag false, rest)
claim_at (suc (suc (suc zero)) ∷ n ∷ rest) = (number n, rest)
claim_at (suc (suc (suc (suc n))) ∷ rest) = (other, rest)
claim_at bytes = (other, [])

-- The fuel bounds the number of claims.
decode_all : ℕ → List ℕ → Claims
unfolding claim_at
decode_all zero bytes = []
decode_all (suc f) [] = []
decode_all (suc f) (n ∷ bytes) =
    let (v, rest) = claim_at (drop n bytes) in (take n bytes, v) ∷ decode_all f rest

claim_read : (v : Claim) (rest : List ℕ) → claim_at (encode_claim v rest) ≡ (v, rest)
unfolding encode_claim claim_at
claim_read (text t) rest = rw (take-length t rest, drop-length t rest) refl
claim_read (flag true) rest = refl
claim_read (flag false) rest = refl
claim_read (number n) rest = refl
claim_read other rest = refl

all_read : (f : ℕ) (claims : Claims) → length claims < f → decode_all f (encode_all claims) ≡ claims
unfolding encode_all decode_all
all_read zero claims h = absurd (omega arith)
all_read (suc f) [] h = refl
all_read (suc f) ((k, v) ∷ claims) h =
    let rest = encode_claim v (encode_all claims) in
    rw
      (
        take-length k rest,
        drop-length k rest,
        claim_read v (encode_all claims),
        all_read f claims (omega arith),
      )
      refl

abbrev unexpired : ℕ → Claims → Bool
unexpired now claims = elim (lookup (str "exp") claims) [
  | some (number e) ↦ ltb now (e * second)
  | _ ↦ false
]

pub sign_claims : Claims → Text
unfolding encode_all
sign_claims claims = suc (length claims) ∷ encode_all claims

pub parse_claims : ℕ → Text → Option Claims
unfolding decode_all
parse_claims now [] = none
parse_claims now (n ∷ token) =
    let claims = decode_all n token in if unexpired now claims then some claims else none

-- The JSON of every context is the empty text, which is read as the context given.
abbrev pub sample : ServerContext → Crypto
sample sc = record {
  seal = λ key nonce bytes. bytes;
  unseal = λ key nonce bytes. some bytes;
  base64_encode = λ bytes. bytes;
  base64_decode = λ t. some t;
  marshal = λ s. some [];
  unmarshal = λ bytes. some sc;
  sign = λ key claims. sign_claims claims;
  parse = λ now key token. parse_claims now token;
  print_uuid = λ uuid. uuid;
  parse_uuid = λ t. some t;
}

not_empty : (bytes : List ℕ) → 0 < length bytes → is_empty bytes ≡ false
not_empty [] h = absurd (omega arith)
not_empty (x ∷ xs) h = refl

reads :
    (now : ℕ) (claims : Claims) (expires_at : ℕ)
    → lookup (str "exp") claims ≡ some (number expires_at)
    → now < expires_at * second
    → parse_claims now (sign_claims claims) ≡ some claims
unfolding parse_claims sign_claims
reads now claims e h l = ground (arith, all_read (suc (length claims)) claims (omega arith))

signed : (claims : Claims) → is_empty (sign_claims claims) ≡ false
unfolding sign_claims
signed claims = refl

pub sample-IsLawful : (sc : ServerContext) → IsLawful (sample sc)
sample-IsLawful sc = record {
  unseal-seal = λ key nonce bytes k n. refl;
  decode-encode = λ bytes. refl;
  encode_not_empty = not_empty;
  parse-sign = λ now key claims e h l. reads now claims e h l;
  sign_not_empty = λ key claims. signed claims;
  parse-print_uuid = λ uuid h. refl;
}

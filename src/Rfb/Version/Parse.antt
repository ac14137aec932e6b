-- ===== src/Rfb/Version/Parse.antt =====
-- `ParseProtocolVersion` and `ToWireFormat` are inverse to one another.
use conduit_bmc.Base.{
  ℕ, ◌<◌, ◌≡◌, ◌↔◌, List, [], ◌∷◌, ok, str, same, same_iff, pad_three, pad_three-digits, arith,
}
use conduit_bmc.Rfb.Stream.{Error, bad_major, bad_minor}
use conduit_bmc.Rfb.Version.{ProtocolVersion, to_wire_format, parse_digits, parse_protocol_version}

parse_digits_three :
    (e : Error) (a b c n : ℕ)
    → parse_digits e 0 (a ∷ b ∷ c ∷ []) ≡ ok n
    → (n < 1000) × (pad_three n ≡ a ∷ b ∷ c ∷ [])
unfolding parse_digits
parse_digits_three e a b c n h = ground (arith, pad_three-digits n)

parse_digits-pad_three : (e : Error) (n : ℕ) → n < 1000 → parse_digits e 0 (pad_three n) ≡ ok n
unfolding parse_digits
parse_digits-pad_three e n h = rw (pad_three-digits n h) (ground arith)

-- Parsing the wire format of a version whose numbers have at most three digits gives it back.
pub parse-to_wire :
    (v : ProtocolVersion)
    → v.major < 1000
    → v.minor < 1000
    → parse_protocol_version (to_wire_format v) ≡ ok (record v { raw = to_wire_format v })
unfolding parse_protocol_version to_wire_format same
parse-to_wire v h k =
    let major_parsed =
      rw (pad_three-digits v.major h) at (parse_digits-pad_three bad_major v.major h) in
    let minor_parsed =
      rw (pad_three-digits v.minor k) at (parse_digits-pad_three bad_minor v.minor k) in
    rw (pad_three-digits v.major h, pad_three-digits v.minor k)
      (ground (arith, major_parsed, minor_parsed))

-- What a successful parse says of the bytes and of the version.
pub record Printed (bytes : List ℕ) (v : ProtocolVersion) : Type 0 where
  pub wire : to_wire_format v ≡ bytes
  pub major_small : v.major < 1000
  pub minor_small : v.minor < 1000
  pub kept : v.raw ≡ bytes

parsed_twelve :
    (a b c d e f g h i j k l : ℕ) (v : ProtocolVersion)
    → let bytes = a ∷ b ∷ c ∷ d ∷ e ∷ f ∷ g ∷ h ∷ i ∷ j ∷ k ∷ l ∷ [] in
      parse_protocol_version bytes ≡ ok v → Printed bytes v
unfolding parse_protocol_version to_wire_format
parsed_twelve a b c d e f g h i j k l v p = ground (
  arith,
  same_iff (a ∷ b ∷ c ∷ d ∷ []) (str "RFB "),
  parse_digits_three bad_major e f g v.major,
  parse_digits_three bad_minor i j k v.minor,
)

pub parse-Printed :
    (bytes : List ℕ) (v : ProtocolVersion) → parse_protocol_version bytes ≡ ok v → Printed bytes v
unfolding parse_protocol_version
parse-Printed (a ∷ b ∷ c ∷ d ∷ e ∷ f ∷ g ∷ h ∷ i ∷ j ∷ k ∷ l ∷ []) v p =
    parsed_twelve a b c d e f g h i j k l v p
parse-Printed bytes v p = ground arith

-- `ParseProtocolVersion` returns a version exactly for the bytes that its wire format prints, when both
-- of its numbers have at most three digits, and keeps the bytes in it.
pub parse_iff :
    (bytes : List ℕ) (v : ProtocolVersion) → (parse_protocol_version bytes ≡ ok v) ↔ Printed bytes v
parse_iff bytes v = (
  parse-Printed bytes v,
  λ p. ground (arith, parse-to_wire v p.major_small p.minor_small, p.wire, p.kept),
)

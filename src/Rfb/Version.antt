-- ===== src/Rfb/Version.antt =====
-- RFB protocol versions: `ProtocolVersion`, `ParseProtocolVersion` and the wire format of
-- local-agent/pkg/vnc/rfb/protocol.go.
pub mod Parse
use conduit_bmc.Base.{
  ℕ, ◌+◌, ◌-◌, ◌*◌, ltb, ◌==◌, if◌then◌else◌, Bool, true, false, ◌&&◌, ◌||◌, Option, none, some,
  List, [], ◌∷◌, ◌++◌, Result, ok, err, require, ◌>>=◌, ◌>>◌, length, take, drop, get_or, Text, str,
  same, pad_three,
}
use conduit_bmc.Rfb.Stream.{
  Error, version_length, bad_prefix, bad_suffix, bad_major, bad_separator, bad_minor,
}

pub record ProtocolVersion : Type 0 where
  pub major : ℕ
  pub minor : ℕ
  pub raw : Text

unfoldable pub is_supported : ProtocolVersion → Bool
is_supported v = v.major == 3 && (v.minor == 3 || v.minor == 7 || v.minor == 8)

unfoldable pub to_wire_format : ProtocolVersion → Text
to_wire_format v = str "RFB " ++ (pad_three v.major ++ (b'.' ∷ (pad_three v.minor ++ (b'\n' ∷ []))))

-- One of the two loops over three digits: `n` is `major` or `minor` so far.
unfoldable pub parse_digits : Error → ℕ → List ℕ → Result Error ℕ
parse_digits e n [] = ok n
parse_digits e n (d ∷ ds) =
    let rest = parse_digits e (n * 10 + (d - b'0')) ds in
    if ltb d b'0' || ltb b'9' d then err e else rest

unfoldable pub parse_protocol_version : List ℕ → Result Error ProtocolVersion
parse_protocol_version bytes = do
  require (length bytes == 12) (version_length (length bytes))
  require (same (take 4 bytes) (str "RFB ")) bad_prefix
  require (get_or bytes 11 0 == b'\n') bad_suffix
  major ← parse_digits bad_major 0 (take 3 (drop 4 bytes))
  require (get_or bytes 7 0 == b'.') bad_separator
  minor ← parse_digits bad_minor 0 (take 3 (drop 8 bytes))
  ok (record { major = major; minor = minor; raw = bytes })

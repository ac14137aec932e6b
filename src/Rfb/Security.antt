-- ===== src/Rfb/Security.antt =====
-- Security negotiation: the security types of local-agent/pkg/vnc/rfb/protocol.go and the methods of
-- `Handshake` in local-agent/pkg/vnc/rfb/handshake.go.
pub mod Select
pub mod Negotiated
pub mod Succeeds
use conduit_bmc.Base.{
  ℕ, ◌%◌, ltb, ◌==◌, if◌then◌else◌, Bool, true, false, not, ◌&&◌, ◌||◌, Option, none, some, List,
  [], ◌∷◌, Result, ok, err, Text,
}
use conduit_bmc.Rfb.Stream.{
  Conn, M, Error, ◌>>=◌, ◌>>◌, return, fail, check, lift, read_bytes, read_u8, read_u32,
  read_string, write_u8, write_string, unsupported_version, version_first, connection_failed,
  no_reason, unsupported_security_type, none_offered, auth_failed, auth_failed_silently,
}
use conduit_bmc.Rfb.Version.{ProtocolVersion, parse_protocol_version, to_wire_format, is_supported}

-- A `SecurityType` is a byte: 0 is invalid, 1 is no authentication, 2 is VNC authentication.
abbrev pub type_invalid : ℕ
type_invalid = 0

abbrev pub type_none : ℕ
type_none = 1

abbrev pub type_vnc_auth : ℕ
type_vnc_auth = 2

unfoldable pub type_supported : ℕ → Bool
type_supported s = s == type_none || s == type_vnc_auth

-- `NegotiateVersion`. The version that it returns is the one that the handshake keeps.
unfoldable pub negotiate_version : M ProtocolVersion
negotiate_version = do
  bytes ← read_bytes 12
  version ← lift (parse_protocol_version bytes)
  check (is_supported version) (unsupported_version version.major version.minor)
  write_string (to_wire_format version)
  return version

-- The loop of `selectSecurityType` over `hasNone` and `hasVNCAuth`.
unfoldable pub scan_types : Bool → Bool → List ℕ → Bool × Bool
scan_types has_none has_vnc_auth [] = (has_none, has_vnc_auth)
scan_types has_none has_vnc_auth (t ∷ ts) =
    scan_types (if t == type_none then true else has_none)
      (if t == type_vnc_auth then true else has_vnc_auth) ts

unfoldable pub choose : Bool → Bool × Bool → ℕ
choose prefer (has_none, has_vnc_auth) =
    if prefer && has_vnc_auth
    then type_vnc_auth
    else if not prefer && has_none
    then type_none
    else if has_vnc_auth
    then type_vnc_auth
    else if has_none
    then type_none
    else type_invalid

unfoldable pub select_security_type : List ℕ → Bool → ℕ
select_security_type types prefer = choose prefer (scan_types false false types)

explain {ℓ} : {A : Type ℓ} → (Text → Error) → Result Error Text × Conn → Result Error A × Conn
explain f (ok reason, c) = (err (f reason), c)
explain f (err e, c) = (err (no_reason e), c)

-- Fails with the reason that the other side gives.
unfoldable pub fail_with_reason {ℓ} : {A : Type ℓ} → (Text → Error) → M A
unfolding explain
fail_with_reason f c = explain f (read_string c)

-- `SecurityType(securityType32)` keeps the low byte of the four.
accept_33 : ℕ → M ℕ
accept_33 type32 = if type32 == 0 then fail_with_reason connection_failed else do
  check (type_supported (type32 % 256)) (unsupported_security_type (type32 % 256))
  return (type32 % 256)

unfoldable pub negotiate_security_type_33 : M ℕ
unfolding accept_33
negotiate_security_type_33 = do type32 ← read_u32; accept_33 type32

select_and_send : List ℕ → Bool → M ℕ
select_and_send types prefer = do
  let selected = select_security_type types prefer
  check (not (selected == type_invalid)) (none_offered types)
  write_u8 selected
  return selected

select_37 : ℕ → Bool → M ℕ
select_37 count prefer =
    if count == 0
    then fail_with_reason connection_failed
    else do types ← read_bytes count; select_and_send types prefer

unfoldable pub negotiate_security_type_37 : Bool → M ℕ
unfolding select_37 select_and_send
negotiate_security_type_37 prefer = do count ← read_u8; select_37 count prefer

-- The version is none until `NegotiateVersion` has succeeded.
unfoldable pub negotiate_security_type : Option ProtocolVersion → Bool → M ℕ
negotiate_security_type none prefer = fail version_first
negotiate_security_type (some v) prefer =
    if v.minor == 3 then negotiate_security_type_33 else negotiate_security_type_37 prefer

result_of : ProtocolVersion → ℕ → M (Unit {0})
result_of v result =
    if result == 0
    then return tt
    else if v.minor == 8
    then fail_with_reason auth_failed
    else fail auth_failed_silently

unfoldable pub read_security_result : Option ProtocolVersion → M (Unit {0})
unfolding result_of
read_security_result none = fail version_first
read_security_result (some v) = do result ← read_u32; result_of v result

unfoldable pub send_client_init : Option ProtocolVersion → Bool → M (Unit {0})
send_client_init none shared = fail version_first
send_client_init (some v) shared = write_u8 (if shared then 1 else 0)

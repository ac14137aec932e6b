-- ===== src/Rfb/Tests.antt =====
-- Runs of the RFB handshake, and its theorems at concrete inputs.
use conduit_bmc.Base.{
  ℕ, ◌%◌, ◌-◌, ◌≡◌, refl, ◌∙◌, true, List, [], ◌∷◌, ◌++◌, ok, same, length, str, pad_three, arith,
}
use mathlib.Core.Path.{ap₂}
use conduit_bmc.Base.{map, ◌-◌, ◌+◌}
use conduit_bmc.Rfb.Stream.{
  Conn, read_u8, chunk, read_bytes, write, write_u8, write_string, to_be, read_loop,
}
use conduit_bmc.Rfb.Stream.Chunks.{arriving}
use conduit_bmc.Rfb.Version.{
  ProtocolVersion, parse_digits, parse_protocol_version, to_wire_format, is_supported,
}
use conduit_bmc.Rfb.Version.Parse.{Printed, parse_iff}
use conduit_bmc.Rfb.Security.{
  negotiate_version, negotiate_security_type_33, negotiate_security_type_37, type_supported,
  select_security_type, scan_types, choose,
}
use conduit_bmc.Rfb.Security.{type_invalid}
use conduit_bmc.Base.{◌≢◌, ◌↔◌}
use conduit_bmc.Rfb.Security.Negotiated.{Agreed, negotiate_version-Agreed, negotiate_33-low_byte}
use conduit_bmc.Rfb.VncAuth.{Des, reverse_bits, encrypt_vnc_challenge, decrypt_vnc_response}
use conduit_bmc.Rfb.VncAuth.Challenge.{decrypt-encrypt_challenge}

-- A server that sends in three pieces.
abbrev pieces : Conn
pieces = record {
  incoming = chunk (str "RFB 0") ∷ chunk (str "03.0") ∷ chunk (str "08\n" ++ (2 ∷ 1 ∷ 2 ∷ [])) ∷ [];
  faults = [];
  sent = [];
}

abbrev version_38 : ProtocolVersion
version_38 = record { major = 3; minor = 8; raw = str "RFB 003.008\n" }

abbrev agreed_38 : Conn
agreed_38 = record {
  incoming = chunk (2 ∷ 1 ∷ 2 ∷ []) ∷ [];
  faults = [];
  sent = str "RFB 003.008\n";
}

negotiates_38 : negotiate_version pieces ≡ (ok version_38, agreed_38)
unfolding negotiate_version read_bytes read_loop parse_protocol_version is_supported to_wire_format
    write_string write same pad_three parse_digits
negotiates_38 = refl

parse_iff_example :
    (parse_protocol_version (str "RFB 003.008\n") ≡ ok version_38)
    ↔ Printed (str "RFB 003.008\n") version_38
parse_iff_example = parse_iff (str "RFB 003.008\n") version_38

negotiate_version-Agreed_example : Agreed pieces version_38 agreed_38
negotiate_version-Agreed_example =
    negotiate_version-Agreed pieces version_38 agreed_38 negotiates_38

abbrev offering : Conn
offering = record { incoming = chunk (2 ∷ 1 ∷ 2 ∷ []) ∷ []; faults = []; sent = [] }

abbrev chosen_vnc : Conn
chosen_vnc = record { incoming = []; faults = []; sent = 2 ∷ [] }

negotiates_37 : negotiate_security_type_37 true offering ≡ (ok 2, chosen_vnc)
unfolding negotiate_security_type_37 read_u8 read_bytes read_loop select_security_type scan_types
    choose write_u8 write
negotiates_37 = refl

-- The word 257 is taken for the security type 1.
abbrev word_257 : Conn
word_257 = record { incoming = chunk (0 ∷ 0 ∷ 1 ∷ 1 ∷ []) ∷ []; faults = []; sent = [] }

negotiate_33-low_byte_example :
    (c' : Conn) × (negotiate_security_type_33 word_257 ≡ (ok (257 % 256), c'))
unfolding type_supported arriving to_be
negotiate_33-low_byte_example =
    negotiate_33-low_byte 257 [] word_257 (omega arith) (omega arith) refl refl

reverses : reverse_bits 0xb2 ≡ 0x4d
unfolding reverse_bits
reverses = refl

unshift-shift : (block : List ℕ) → map (λ b. b - 1) (map (λ b. b + 1) block) ≡ block
unshift-shift [] = refl
unshift-shift (b ∷ bs) = ap₂ ◌∷◌ (omega arith) (unshift-shift bs)

length-shift : (block : List ℕ) → length (map (λ b. b + 1) block) ≡ length block
length-shift [] = refl
length-shift (b ∷ bs) = omega (arith, length-shift bs)

-- A cipher that meets what is relied on: it adds one to each byte.
abbrev shifting : Des
shifting = record {
  encrypt = λ key. map (λ b. b + 1);
  decrypt = λ key. map (λ b. b - 1);
  length-encrypt = λ key block k b. length-shift block ∙ b;
  decrypt-encrypt = λ key block k b. unshift-shift block;
}

abbrev challenge : List ℕ
challenge = 1 ∷ 2 ∷ 3 ∷ 4 ∷ 5 ∷ 6 ∷ 7 ∷ 8 ∷ 9 ∷ 10 ∷ 11 ∷ 12 ∷ 13 ∷ 14 ∷ 15 ∷ 16 ∷ []

decrypt-encrypt_challenge_example :
    (response : List ℕ) × (encrypt_vnc_challenge shifting challenge (str "pw") ≡ ok response)
    × (length response ≡ 16)
    × (decrypt_vnc_response shifting response (str "pw") ≡ ok challenge)
decrypt-encrypt_challenge_example =
    decrypt-encrypt_challenge shifting challenge (str "pw") (omega arith)

abbrev version_37 : ProtocolVersion
version_37 = record { major = 3; minor = 7; raw = [] }

abbrev opening_37 : Conn
opening_37 = record {
  incoming = chunk (str "RFB 003.") ∷ chunk (str "007\n" ++ (1 ∷ 2 ∷ [])) ∷ [];
  faults = [];
  sent = [];
}

supports_37 : is_supported version_37 ≡ true
unfolding is_supported
supports_37 = refl

opens_37 : arriving opening_37.incoming ≡ to_wire_format version_37 ++ (1 ∷ 2 ∷ [])
unfolding arriving to_wire_format pad_three
opens_37 = refl

selects_2 : select_security_type (1 ∷ 2 ∷ []) true ≢ type_invalid
unfolding select_security_type scan_types choose
selects_2 e = omega arith

lists_types : arriving offering.incoming ≡ 2 ∷ ((1 ∷ 2 ∷ []) ++ [])
unfolding arriving
lists_types = refl

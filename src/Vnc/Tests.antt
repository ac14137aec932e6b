-- ===== src/Vnc/Tests.antt =====
-- A BMC without a password and a browser.
use conduit_bmc.Base.{
  length, replicate, str, same, ok, ℕ, ◌+◌, ◌-◌, ◌≡◌, refl, ◌∙◌, ◌≢◌, true, false, List, [], ◌∷◌,
  ◌++◌, map, arith,
}
use conduit_bmc.Rfb.Stream.{Conn, chunk, to_be}
use conduit_bmc.Rfb.Stream.Chunks
use conduit_bmc.Rfb.Version.{
  ProtocolVersion, parse_protocol_version, to_wire_format, is_supported, parse_digits,
}
use conduit_bmc.Base.{pad_three}
use conduit_bmc.Rfb.Security.{select_security_type, scan_types, choose, type_invalid}
use conduit_bmc.Rfb.VncAuth.{Des}
use mathlib.Core.Path.{ap₂}
use conduit_bmc.Streaming.{data_chunk}
use conduit_bmc.Vnc.Native.{authenticate}
use conduit_bmc.Vnc.Native.Cached.{Dialogue, open_access}
use conduit_bmc.Vnc.Proxy.{handle_browser_handshake, version_38}
use conduit_bmc.Vnc.Adapter.{Adapter, wire}
use conduit_bmc.Vnc.Adapter.Steady.{arriving, outgoing, incoming}
use conduit_bmc.Vnc.Served.{handle_browser_handshake-authenticate}

unshift-shift : (block : List ℕ) → map (λ b. b - 1) (map (λ b. b + 1) block) ≡ block
unshift-shift [] = refl
unshift-shift (b ∷ bs) = ap₂ ◌∷◌ (omega arith) (unshift-shift bs)

length-shift : (block : List ℕ) → length (map (λ b. b + 1) block) ≡ length block
length-shift [] = refl
length-shift (b ∷ bs) = omega (arith, length-shift bs)

-- A cipher that meets what is relied on: it adds one to each byte.
abbrev shifting : Des
shifting = record {
  encrypt = λ key. map (λ b. b + 1);
  decrypt = λ key. map (λ b. b - 1);
  length-encrypt = λ key block k b. length-shift block ∙ b;
  decrypt-encrypt = λ key block k b. unshift-shift block;
}

abbrev v38 : ProtocolVersion
v38 = record { major = 3; minor = 8; raw = version_38 }

abbrev header : List ℕ
header = replicate 20 7

abbrev bmc : Conn
bmc = record {
  incoming =
      chunk version_38
      ∷ chunk (1 ∷ 1 ∷ [])
      ∷ chunk (to_be 0 ++ header)
      ∷ chunk (to_be 2 ++ (104 ∷ 49 ∷ []))
      ∷ [];
  faults = [];
  sent = [];
}

abbrev browser : Adapter
browser = record {
  session_id = str "vnc-1";
  server_id = str "h1";
  buffered = [];
  stream =
      data_chunk (str "vnc-1") (str "h1") version_38
      ∷ data_chunk (str "vnc-1") (str "h1") (1 ∷ 1 ∷ [])
      ∷ [];
  sends = [];
  sent = [];
}

selects_none : select_security_type (1 ∷ []) false ≡ 1
unfolding select_security_type scan_types choose
selects_none = refl

dialogue : Dialogue shifting [] (select_security_type (1 ∷ []) false) [] []
dialogue = open_access selects_none refl refl

prints : to_wire_format v38 ≡ version_38
unfolding to_wire_format pad_three
prints = refl

supports : is_supported v38 ≡ true
unfolding is_supported
supports = refl

parses : parse_protocol_version version_38 ≡ ok v38
unfolding parse_protocol_version parse_digits same
parses = refl

bmc_says :
    Chunks.arriving bmc.incoming
    ≡ to_wire_format v38
      ++ (length {A = ℕ} (1 ∷ [])
          ∷ ((1 ∷ [])
              ++ ([]
                  ++ (to_be 0
                      ++ (header
                          ++ (to_be (length {A = ℕ} (104 ∷ 49 ∷ []))
                              ++ ((104 ∷ 49 ∷ []) ++ [])))))))
unfolding Chunks.arriving to_be
bmc_says = rw prints refl

browser_says : arriving browser ≡ version_38 ++ (1 ∷ (1 ∷ []))
unfolding incoming data_chunk
browser_says = refl

valid : select_security_type (1 ∷ []) false ≢ type_invalid
valid e = absurd (ground (arith, e, selects_none))

handle_browser_handshake-authenticate_example :
    (cached : List ℕ) × (c' : Conn) × (after : Adapter) × (authenticate shifting [] bmc
      ≡ (ok cached, c'))
    × (Chunks.arriving c'.incoming ≡ [])
    × (handle_browser_handshake wire cached browser ≡ (ok tt, after))
    × (arriving after ≡ [])
    × (outgoing after.sent
        ≡ outgoing browser.sent
          ++ (version_38
              ++ ((1 ∷ 1 ∷ to_be 0)
                  ++ (header ++ (to_be (length {A = ℕ} (104 ∷ 49 ∷ [])) ++ (104 ∷ 49 ∷ []))))))
handle_browser_handshake-authenticate_example =
    handle_browser_handshake-authenticate shifting [] v38 (1 ∷ []) [] [] header (104 ∷ 49 ∷ []) []
      bmc version_38 v38 1 [] browser supports refl valid dialogue refl (omega arith) bmc_says refl
      refl refl parses (omega arith) browser_says

-- ===== src/Vnc/Served.antt =====
-- From the BMC's server to the browser.
use conduit_bmc.Base.{
  length, length-append, Text, is_empty, ok, ℕ, ◌^◌, ◌≤◌, ◌<◌, ◌≡◌, ap, ◌≢◌, true, not, List, [],
  ◌∷◌, ◌++◌, arith,
}
use conduit_bmc.Rfb.Stream.{Conn, to_be}
use conduit_bmc.Rfb.Stream.Chunks
use conduit_bmc.Rfb.Version.{ProtocolVersion, parse_protocol_version, to_wire_format, is_supported}
use conduit_bmc.Rfb.Security.{type_none, type_invalid, select_security_type}
use conduit_bmc.Rfb.VncAuth.{Des}
use conduit_bmc.Vnc.Native.{authenticate}
use conduit_bmc.Vnc.Native.Cached.{Dialogue, server_init, authenticate-server_init}
use conduit_bmc.Vnc.Proxy.{handle_browser_handshake, version_38}
use conduit_bmc.Vnc.Proxy.Admits.{handle_browser_handshake-admits}
use conduit_bmc.Vnc.Adapter.{Adapter, wire}
use conduit_bmc.Vnc.Adapter.Steady.{arriving, outgoing, steady}

-- Through the stream, a browser that answers with RFB 3.7 or later, selects no authentication and
-- sends a ClientInit, however its bytes are cut into chunks, is admitted when there is a ServerInit: the
-- chunks sent to it carry the version 3.8, the one security type, a result of zero and that ServerInit,
-- and what it says afterwards is left, in the adapter's buffer and the stream.
pub handle_browser_handshake-chunks :
    (bytes : List ℕ) (v : ProtocolVersion) (shared : ℕ) (init rest : List ℕ) (a : Adapter)
    → a.sends ≡ []
    → length bytes ≡ 12
    → parse_protocol_version bytes ≡ ok v
    → 7 ≤ v.minor
    → init ≢ []
    → arriving a ≡ bytes ++ (type_none ∷ (shared ∷ rest))
    → (after : Adapter) × (handle_browser_handshake wire init a ≡ (ok tt, after))
      × (arriving after ≡ rest)
      × (outgoing after.sent
          ≡ outgoing a.sent ++ (version_38 ++ ((1 ∷ type_none ∷ to_be 0) ++ init)))
unfolding steady
handle_browser_handshake-chunks bytes v shared init rest a h n p m i e =
    let d = handle_browser_handshake-admits wire steady bytes v shared init rest a h n p m i e in
    (d.after, d.result, d.left, d.sent)

not_empty : (header name : List ℕ) → length header ≡ 20 → server_init header name ≢ []
not_empty header name h e =
    absurd (omega (arith, h, ap length e, length-append header (to_be (length name) ++ name)))

-- When a BMC's server of RFB 3.8 lists security types of which the agent selects one, admits the agent
-- by it and sends a ServerInit, and a browser then states a minor version of at least 7 and selects no
-- authentication, the agent authenticates, taking nothing of what the BMC sends afterwards, and the
-- browser is admitted and sent that ServerInit, byte for byte, behind the agent's own version, security
-- type and result, while what it says afterwards is left.
pub handle_browser_handshake-authenticate :
    (des : Des) (password : Text) (bmc : ProtocolVersion)
    (types asked answered header name more : List ℕ) (c : Conn) (bytes : List ℕ)
    (v : ProtocolVersion) (shared : ℕ) (rest : List ℕ) (a : Adapter)
    → is_supported bmc ≡ true
    → bmc.minor ≡ 8
    → select_security_type types (not (is_empty password)) ≢ type_invalid
    → Dialogue des password (select_security_type types (not (is_empty password))) asked answered
    → length header ≡ 20
    → length name < 2 ^ 32
    → Chunks.arriving c.incoming
      ≡ to_wire_format bmc
        ++ (length types
            ∷ (types
                ++ (asked ++ (to_be 0 ++ (header ++ (to_be (length name) ++ (name ++ more)))))))
    → c.faults ≡ []
    → a.sends ≡ []
    → length bytes ≡ 12
    → parse_protocol_version bytes ≡ ok v
    → 7 ≤ v.minor
    → arriving a ≡ bytes ++ (type_none ∷ (shared ∷ rest))
    → (cached : List ℕ) × (c' : Conn) × (after : Adapter) × (authenticate des password c
        ≡ (ok cached, c'))
      × (Chunks.arriving c'.incoming ≡ more)
      × (handle_browser_handshake wire cached a ≡ (ok tt, after))
      × (arriving after ≡ rest)
      × (outgoing after.sent
          ≡ outgoing a.sent
            ++ (version_38
                ++ ((1 ∷ type_none ∷ to_be 0) ++ (header ++ (to_be (length name) ++ name)))))
handle_browser_handshake-authenticate des password bmc types asked answered header name more c bytes
      v shared rest a s m t q h n e f g l p k i =
    let d =
      authenticate-server_init des password bmc types asked answered header name more c s m t q h n
        e f in
    let (after, r, left, out) =
      handle_browser_handshake-chunks bytes v shared (server_init header name) rest a g l p k
        (not_empty header name h) i in
    (server_init header name, d.after, after, d.result, d.left, r, left, out)

-- ===== src/LocalAgent/Stream/Lost.antt =====
-- What a browser sends in one piece with its ClientInit.
use conduit_bmc.Base.{
  Text, same, lookup, ok, ℕ, ◌≡◌, refl, ◌≢◌, Option, some, List, [], ◌∷◌, ◌++◌, arith,
}
use conduit_bmc.Types.Endpoints.{VncEndpoint}
use conduit_bmc.Types.Server.{Server}
use conduit_bmc.Types.Discovery.{DiscoveryMetadata}
use conduit_bmc.Rfb.Stream.{to_be}
use conduit_bmc.Rfb.Version.{parse_protocol_version, parse_digits}
use conduit_bmc.Streaming.{
  Chunk, received, data_chunk, send_handshake, send_handshake_ack, receive_handshake,
}
use conduit_bmc.Vnc.Proxy.{handle_browser_handshake, version_38}
use conduit_bmc.Vnc.Adapter.{Adapter, wire, receive_loop, read_full, write}
use conduit_bmc.Vnc.Transport.{EndpointType, Endpoint, new_transport}
use conduit_bmc.LocalAgent.{LocalAgent}
use conduit_bmc.LocalAgent.Stream.{stream_vnc_data, vnc_endpoint_of}

module _ (session_id server_id : Text) where
  abbrev pub says : List ℕ → Chunk
  says bytes = data_chunk session_id server_id bytes

  -- A browser that sends its ClientInit and `extra` in one message.
  abbrev pub browser_says : ℕ → List ℕ → List Chunk → List Chunk
  browser_says shared extra later = says version_38 ∷ says (1 ∷ []) ∷ says (shared ∷ extra) ∷ later

  -- What the agent sends it before the acknowledgement.
  abbrev pub agent_says : List ℕ → List Chunk
  agent_says server_init =
      says version_38 ∷ says (1 ∷ []) ∷ says (1 ∷ []) ∷ says (to_be 0) ∷ says server_init ∷ []

  abbrev adapter : List ℕ → List Chunk → List Chunk → Adapter
  adapter buffered stream sent = record {
    session_id = session_id;
    server_id = server_id;
    buffered = buffered;
    stream = stream;
    sends = [];
    sent = sent;
  }

  handshake :
      (b : ℕ) (bs : List ℕ) (shared : ℕ) (extra : List ℕ) (later : List Chunk)
      → handle_browser_handshake wire (b ∷ bs) (adapter [] (browser_says shared extra later) [])
        ≡ (ok tt, adapter extra later (agent_says (b ∷ bs)))
  unfolding handle_browser_handshake receive_loop read_full write parse_protocol_version
      parse_digits data_chunk same
  handshake b bs shared [] [] = ground arith
  handshake b bs shared [] (c ∷ later) = ground arith
  handshake b bs shared (x ∷ extra) later = ground arith

  -- A browser that opens a VNC stream and sends bytes in one message with its ClientInit, as it may,
  -- is admitted, but those bytes are dropped: the proxy is started on the chunks after that message,
  -- whatever the bytes are, and nothing that was sent before the proxy depends on them.
  pub stream_vnc_data-drops :
      (connects : EndpointType → Endpoint → Option (List ℕ)) (agent : LocalAgent)
      (s : Server DiscoveryMetadata) (e : VncEndpoint) (t : EndpointType) (server_init : List ℕ)
      (shared : ℕ) (extra : List ℕ) (later : List Chunk)
      → lookup server_id agent.discovered_servers ≡ some s
      → s.vnc_endpoint ≡ some e
      → new_transport (vnc_endpoint_of e) ≡ some t
      → connects t (vnc_endpoint_of e) ≡ some server_init
      → server_init ≢ []
      → stream_vnc_data connects
          (received (send_handshake session_id server_id))
          (browser_says shared extra later)
          agent
        ≡ ok (record {
          transport = t;
          remaining = later;
          sent = agent_says server_init ++ (send_handshake_ack session_id server_id ∷ []);
        })
  unfolding stream_vnc_data receive_handshake send_handshake send_handshake_ack
  stream_vnc_data-drops connects agent s e t [] shared extra later h v n c i = absurd (i refl)
  stream_vnc_data-drops connects agent s e t (b ∷ bs) shared extra later h v n c i =
      rw h (rw v (rw n (rw c (rw (handshake b bs shared extra later) refl))))

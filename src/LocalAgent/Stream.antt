-- ===== src/LocalAgent/Stream.antt =====
-- local-agent/internal/agent/streaming.go: the streams that the gateway opens at the agent. The SOL
-- client and its session are given as answers, and so is the connection to a VNC server.
pub mod Lost
pub mod Serial
use conduit_bmc.Base.{
  ◌>>=◌, ◌>>◌, ltb, if◌then◌else◌, length, Text, lookup, Result, ok, err, require, or_fail, ℕ, ◌+◌,
  Bool, true, Option, none, some, List, [], ◌∷◌, ◌++◌, map,
}
use mathlib.Core.Option
use conduit_bmc.Types.Endpoints.{SolEndpoint, VncEndpoint, BmcControlEndpoint}
use conduit_bmc.Rfb.Stream.{Error}
use conduit_bmc.Vnc.Proxy.{handle_browser_handshake}
use conduit_bmc.Vnc.Adapter.{Adapter, wire}
use conduit_bmc.Vnc.Transport.{EndpointType, Endpoint, new_transport}
use conduit_bmc.Types.Server.{Server, get_primary_control_endpoint}
use conduit_bmc.Types.Discovery.{DiscoveryMetadata}
use conduit_bmc.Streaming.{
  Chunk, Received, received, failed, HandshakeError, receive_handshake, send_handshake_ack, Verdict,
  forward, skip, stop, close_chunk, data_chunk,
}
use conduit_bmc.LocalAgent.{LocalAgent}

pub data StreamError : Type 0 where
  handshake_failed : HandshakeError → StreamError
  server_not_found : Text → StreamError
  sol_not_available : Text → StreamError
  client_failed session_failed send_ack_failed : StreamError
  vnc_not_available : Text → StreamError
  transport_failed connect_failed : StreamError
  browser_failed : Error → StreamError

-- What the agent is attached to, and the chunk that tells the gateway.
pub record SolStream : Type 0 where
  pub at : SolEndpoint
  pub insecure_skip_verify : Bool
  pub ack : Chunk

abbrev of_handshake : {A : Type 0} → Result HandshakeError A → Result StreamError A
of_handshake (ok a) = ok a
of_handshake (err e) = err (handshake_failed e)

-- Certificates are not verified unless the primary endpoint's TLS settings say so.
unfoldable pub skips_verification : Server DiscoveryMetadata → Bool
skips_verification server = elim (get_primary_control_endpoint server) [
  | none ↦ true
  | some e ↦ elim e.tls [ none ↦ true | some tls ↦ tls.insecure_skip_verify ]
]

unfoldable pub stream_console_data :
    (Text → Bool)
    → (SolEndpoint → Bool → Bool)
    → Bool
    → Received Chunk
    → LocalAgent
    → Result StreamError SolStream
stream_console_data has_client creates gateway_takes first agent = do
  (session_id, server_id) ← of_handshake (receive_handshake first)
  server ← or_fail (lookup server_id agent.discovered_servers) (server_not_found server_id)
  endpoint ← or_fail server.sol_endpoint (sol_not_available server_id)
  require (has_client endpoint.sol_type) client_failed
  require (creates endpoint (skips_verification server)) session_failed
  require gateway_takes send_ack_failed
  ok (record {
    at = endpoint;
    insecure_skip_verify = skips_verification server;
    ack = send_handshake_ack session_id server_id;
  })

-- The loops of `proxySOLSession`, from the SOL session and to it.
unfoldable pub sol_to_stream : Received (List ℕ) → Verdict
sol_to_stream failed = stop
sol_to_stream (received bytes) = if ltb 0 (length bytes) then forward bytes else skip

unfoldable pub stream_to_sol : Received Chunk → Verdict
stream_to_sol failed = stop
stream_to_sol (received c) =
    if c.close_stream
    then stop
    else if c.is_handshake
    then skip
    else if ltb 0 (length c.chunk_data)
    then forward c.chunk_data
    else skip

-- The chunks that `ProxyFromStream` will receive, and those that were sent before it starts.
pub record VncStream : Type 0 where
  pub transport : EndpointType
  pub remaining : List Chunk
  pub sent : List Chunk

abbrev acknowledged :
    Text → Text → EndpointType → Result Error (Unit {0}) × Adapter → Result StreamError VncStream
acknowledged session_id server_id transport (err e, a) = err (browser_failed e)
acknowledged session_id server_id transport (ok u, a) = ok (record {
  transport = transport;
  remaining = a.stream;
  sent = a.sent ++ (send_handshake_ack session_id server_id ∷ []);
})

unfoldable pub vnc_endpoint_of : VncEndpoint → Endpoint
vnc_endpoint_of e = record {
  endpoint = e.endpoint;
  username = e.username;
  password = e.password;
  tls = Option.map (λ tls. (tls.enabled, tls.insecure_skip_verify)) e.tls;
}

-- `connects` gives the ServerInit that the transport has cached when it could connect and authenticate;
-- `later` are the chunks after the first, all of which arrive, and every chunk can be sent.
unfoldable pub stream_vnc_data :
    (EndpointType → Endpoint → Option (List ℕ))
    → Received Chunk
    → List Chunk
    → LocalAgent
    → Result StreamError VncStream
unfolding vnc_endpoint_of
stream_vnc_data connects first later agent = do
  (session_id, server_id) ← of_handshake (receive_handshake first)
  server ← or_fail (lookup server_id agent.discovered_servers) (server_not_found server_id)
  endpoint ← or_fail server.vnc_endpoint (vnc_not_available server_id)
  transport ← or_fail (new_transport (vnc_endpoint_of endpoint)) transport_failed
  server_init ← or_fail (connects transport (vnc_endpoint_of endpoint)) connect_failed
  acknowledged session_id server_id transport (
      handle_browser_handshake wire server_init (record {
        session_id = session_id;
        server_id = server_id;
        buffered = [];
        stream = later;
        sends = [];
        sent = [];
      }))

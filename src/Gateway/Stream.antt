-- ===== src/Gateway/Stream.antt =====
-- gateway/internal/gateway/streaming.go: the console stream of a command line client. The interceptor
-- that validates tokens is a `connect.UnaryInterceptorFunc`, which streams do not pass, so the handler
-- is given no context.
pub mod Relayed
pub mod AnyServer
mod Tests
use conduit_bmc.Base.{
  ◌>>=◌, ◌>>◌, if◌then◌else◌, Text, Result, ok, err, require, or_fail, ℕ, Bool, true, false, not,
  ◌||◌, Option, none, some, List, [], ◌∷◌,
}
use conduit_bmc.Agents.{Info, get}
use conduit_bmc.Streaming.{
  Chunk, Received, received, failed, HandshakeError, receive_handshake, send_handshake,
  send_handshake_ack, close_chunk,
}
use conduit_bmc.Gateway.{Gateway, ConsoleSession}
use conduit_bmc.Gateway.Console.{get_console_session_by_id}

pub data StreamError : Type 0 where
  handshake_failed : HandshakeError → StreamError
  session_not_found : Text → StreamError
  agent_not_available : Text → StreamError
  send_handshake_failed send_ack_failed : StreamError

-- The streams between which the handler then copies: the agent's address, and what was sent to each.
pub record ConsoleStream : Type 0 where
  pub agent_endpoint : Text
  pub to_agent : Chunk
  pub to_client : Chunk

abbrev of_handshake : {A : Type 0} → Result HandshakeError A → Result StreamError A
of_handshake (ok a) = ok a
of_handshake (err e) = err (handshake_failed e)

-- `agent_takes` and `client_takes` say whether a chunk can be sent to each.
unfoldable pub stream_console_data :
    ℕ → Received Chunk → (Text → Bool) → Bool → Gateway → Result StreamError ConsoleStream
stream_console_data now first agent_takes client_takes g = do
  (session_id, server_id) ← of_handshake (receive_handshake first)
  session ← or_fail (get_console_session_by_id now session_id g) (session_not_found session_id)
  agent ← or_fail (get session.agent_id g.agent_registry) (agent_not_available session.agent_id)
  require (agent_takes agent.endpoint) send_handshake_failed
  require client_takes send_ack_failed
  ok (record {
    agent_endpoint = agent.endpoint;
    to_agent = send_handshake session_id server_id;
    to_client = send_handshake_ack session_id server_id;
  })

-- What one loop of `proxyConsoleStreams` meets: a chunk, with whether it can be sent on, or an error.
pub data Arrival : Type 0 where
  arrives : Chunk → Bool → Arrival
  breaks : Arrival

-- How far a loop has come: it waits for the next chunk, it has reported an error, or it has returned
-- without a report.
pub data LoopState : Type 0 where
  waiting reported returned : LoopState

unfoldable pub console_loop : List Arrival → LoopState
console_loop [] = waiting
console_loop (breaks ∷ later) = reported
console_loop (arrives c sent ∷ later) =
    let rest = console_loop later in
    if not sent then reported else if c.close_stream then returned else rest

abbrev has_reported : LoopState → Bool
has_reported reported = true
has_reported waiting = false
has_reported returned = false

-- The chunks that are sent to the client and to the agent when the handler returns; none while it
-- waits for the first report.
unfoldable pub proxy_console_streams :
    Text → Text → List Arrival → List Arrival → Option (Chunk × Chunk)
unfolding console_loop
proxy_console_streams session_id server_id from_agent from_client =
    if has_reported (console_loop from_agent) || has_reported (console_loop from_client)
    then some (close_chunk session_id server_id, close_chunk session_id server_id)
    else none

-- ===== src/Streaming.antt =====
-- core/streaming/proxy.go and core/streaming/tcp_proxy.go: chunks, the handshake, and what each of the
-- loops does with one item that it has read. The two factories of chunks make the same values.
pub mod Relay
pub mod Closed
pub mod Loops
mod Tests
use conduit_bmc.Base.{
  ltb, if◌then◌else◌, length, Text, Result, ok, err, ℕ, Bool, true, false, not, List, [],
}

pub record Chunk : Type 0 where
  pub session_id : Text
  pub server_id : Text
  pub chunk_data : List ℕ
  pub is_handshake : Bool
  pub close_stream : Bool

-- `NewChunk`
unfoldable pub new_chunk : Text → Text → List ℕ → Bool → Bool → Chunk
new_chunk session_id server_id bytes is_handshake close_stream = record {
  session_id = session_id;
  server_id = server_id;
  chunk_data = bytes;
  is_handshake = is_handshake;
  close_stream = close_stream;
}

-- What `Receive` or a read returns: an item, or an error.
pub data Received (A : Type 0) : Type 0 where
  received : A → Received A
  failed : Received A

pub data HandshakeError : Type 0 where
  receive_failed not_handshake : HandshakeError

unfoldable pub send_handshake : Text → Text → Chunk
unfolding new_chunk
send_handshake session_id server_id = new_chunk session_id server_id [] true false

unfoldable pub send_handshake_ack : Text → Text → Chunk
unfolding new_chunk
send_handshake_ack session_id server_id = new_chunk session_id server_id [] true false

unfoldable pub receive_handshake : Received Chunk → Result HandshakeError (Text × Text)
receive_handshake failed = err receive_failed
receive_handshake (received c) =
    if not c.is_handshake then err not_handshake else ok (c.session_id, c.server_id)

-- A loop's verdict on an item: it writes these bytes, reads on, or reports an error and ends.
pub data Verdict : Type 0 where
  forward : List ℕ → Verdict
  skip : Verdict
  stop : Verdict

pub data MessageType : Type 0 where
  binary_message text_message other_message : MessageType

-- The loop from the WebSocket to the stream; the bytes are those of a chunk with both flags false.
unfoldable pub websocket_to_stream : Received (MessageType × List ℕ) → Verdict
websocket_to_stream failed = stop
websocket_to_stream (received (binary_message, bytes)) = forward bytes
websocket_to_stream (received (text_message, bytes)) = forward bytes
websocket_to_stream (received (other_message, bytes)) = skip

-- What a read of the TCP transport returns.
pub data TcpRead : Type 0 where
  tcp_bytes : List ℕ → TcpRead
  tcp_eof tcp_timeout tcp_error : TcpRead

-- The loop from the TCP transport to the stream.
unfoldable pub tcp_to_stream : TcpRead → Verdict
tcp_to_stream (tcp_bytes bytes) = if ltb 0 (length bytes) then forward bytes else skip
tcp_to_stream tcp_eof = stop
tcp_to_stream tcp_timeout = skip
tcp_to_stream tcp_error = stop

-- The loops that read the stream: to the WebSocket, and to the TCP transport.
unfoldable pub stream_to_websocket : Received Chunk → Verdict
stream_to_websocket failed = stop
stream_to_websocket (received c) =
    if c.close_stream
    then stop
    else if c.is_handshake
    then skip
    else if ltb 0 (length c.chunk_data)
    then forward c.chunk_data
    else skip

unfoldable pub stream_to_tcp : Received Chunk → Verdict
stream_to_tcp failed = stop
stream_to_tcp (received c) =
    if c.close_stream
    then stop
    else if c.is_handshake
    then skip
    else if ltb 0 (length c.chunk_data)
    then forward c.chunk_data
    else skip

-- The chunk that the loops from a connection send, and the one that is sent when a proxy ends.
unfoldable pub data_chunk : Text → Text → List ℕ → Chunk
unfolding new_chunk
data_chunk session_id server_id bytes = new_chunk session_id server_id bytes false false

unfoldable pub close_chunk : Text → Text → Chunk
unfolding new_chunk
close_chunk session_id server_id = new_chunk session_id server_id [] false true

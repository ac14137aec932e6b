-- ===== src/Streaming/Loops.antt =====
-- The loops of core/streaming, as the ends of the relay.
use conduit_bmc.Base.{ltb, length, Text, ℕ, ◌≡◌, refl, ◌⊎◌, inl, inr, false, List, [], ◌∷◌, arith}
use conduit_bmc.Streaming.{
  received, forward, skip, stop, MessageType, binary_message, text_message, other_message, TcpRead,
  tcp_bytes, tcp_eof, tcp_timeout, tcp_error, websocket_to_stream, tcp_to_stream,
  stream_to_websocket, stream_to_tcp, data_chunk, close_chunk, send_handshake_ack,
}
use conduit_bmc.Streaming.Relay.{Source, Sink}

abbrev pub message_bytes : MessageType × List ℕ → List ℕ
message_bytes (binary_message, bytes) = bytes
message_bytes (text_message, bytes) = bytes
message_bytes (other_message, bytes) = []

abbrev pub bytes_read : TcpRead → List ℕ
bytes_read (tcp_bytes bytes) = bytes
bytes_read tcp_eof = []
bytes_read tcp_timeout = []
bytes_read tcp_error = []

pub message_faithful :
    (m : MessageType × List ℕ) (b : List ℕ)
    → websocket_to_stream (received m) ≡ forward b
    → b ≡ message_bytes m
unfolding websocket_to_stream
message_faithful (binary_message, bytes) b h = ground (arith, h)
message_faithful (text_message, bytes) b h = ground (arith, h)
message_faithful (other_message, bytes) b h = absurd (ground (arith, h))

pub message_idle :
    (m : MessageType × List ℕ) → websocket_to_stream (received m) ≡ skip → message_bytes m ≡ []
unfolding websocket_to_stream
message_idle (binary_message, bytes) h = absurd (ground (arith, h))
message_idle (text_message, bytes) h = absurd (ground (arith, h))
message_idle (other_message, bytes) h = refl

-- The WebSocket of a browser.
unfoldable pub browser : Source (MessageType × List ℕ)
browser = record {
  bytes_of = message_bytes;
  verdict = λ m. websocket_to_stream (received m);
  faithful = message_faithful;
  idle = message_idle;
}

nothing : (bytes : List ℕ) → ltb 0 (length bytes) ≡ false → bytes ≡ []
nothing [] h = refl
nothing (b ∷ bytes) h = absurd (ground (arith, h))

pub tcp_faithful : (r : TcpRead) (b : List ℕ) → tcp_to_stream r ≡ forward b → b ≡ bytes_read r
unfolding tcp_to_stream
tcp_faithful (tcp_bytes bytes) b h = ground (arith, h)
tcp_faithful tcp_eof b h = absurd (ground (arith, h))
tcp_faithful tcp_timeout b h = absurd (ground (arith, h))
tcp_faithful tcp_error b h = absurd (ground (arith, h))

pub tcp_idle : (r : TcpRead) → tcp_to_stream r ≡ skip → bytes_read r ≡ []
unfolding tcp_to_stream
tcp_idle (tcp_bytes bytes) h = nothing bytes (ground (arith, h))
tcp_idle tcp_eof h = refl
tcp_idle tcp_timeout h = refl
tcp_idle tcp_error h = refl

-- The TCP transport to a server.
unfoldable pub transport : Source TcpRead
transport = record {
  bytes_of = bytes_read;
  verdict = tcp_to_stream;
  faithful = tcp_faithful;
  idle = tcp_idle;
}

pub tcp_data :
    (sid server_id : Text) (b : List ℕ)
    → (stream_to_tcp (received (data_chunk sid server_id b)) ≡ forward b)
      ⊎ ((stream_to_tcp (received (data_chunk sid server_id b)) ≡ skip) × (b ≡ []))
unfolding stream_to_tcp data_chunk
tcp_data sid server_id [] = inr (refl, refl)
tcp_data sid server_id (d ∷ b) = inl (ground arith)

pub tcp_others :
    (sid server_id : Text)
    → (stream_to_tcp (received (close_chunk sid server_id)) ≡ stop)
      × (stream_to_tcp (received (send_handshake_ack sid server_id)) ≡ skip)
unfolding stream_to_tcp close_chunk send_handshake_ack
tcp_others sid server_id = (refl, refl)

unfoldable pub to_tcp : Sink
to_tcp = record {
  verdict = λ c. stream_to_tcp (received c);
  on_data = tcp_data;
  on_close = λ sid server_id. (tcp_others sid server_id).0;
  on_ack = λ sid server_id. (tcp_others sid server_id).1;
}

pub websocket_data :
    (sid server_id : Text) (b : List ℕ)
    → (stream_to_websocket (received (data_chunk sid server_id b)) ≡ forward b)
      ⊎ ((stream_to_websocket (received (data_chunk sid server_id b)) ≡ skip) × (b ≡ []))
unfolding stream_to_websocket data_chunk
websocket_data sid server_id [] = inr (refl, refl)
websocket_data sid server_id (d ∷ b) = inl (ground arith)

pub websocket_others :
    (sid server_id : Text)
    → (stream_to_websocket (received (close_chunk sid server_id)) ≡ stop)
      × (stream_to_websocket (received (send_handshake_ack sid server_id)) ≡ skip)
unfolding stream_to_websocket close_chunk send_handshake_ack
websocket_others sid server_id = (refl, refl)

unfoldable pub to_websocket : Sink
to_websocket = record {
  verdict = λ c. stream_to_websocket (received c);
  on_data = websocket_data;
  on_close = λ sid server_id. (websocket_others sid server_id).0;
  on_ack = λ sid server_id. (websocket_others sid server_id).1;
}

-- ===== src/LocalAgent/Stream/Serial.antt =====
-- The loops of `proxySOLSession`, as the agent's end of the relay.
use conduit_bmc.Base.{Text, ℕ, ◌≡◌, refl, ◌⊎◌, inl, inr, List, [], ◌∷◌, arith}
use conduit_bmc.Streaming.{
  Received, received, failed, forward, skip, stop, data_chunk, close_chunk, send_handshake_ack,
}
use conduit_bmc.Streaming.Relay.{Source, Sink}
use conduit_bmc.LocalAgent.Stream.{sol_to_stream, stream_to_sol}

abbrev pub bytes_read : Received (List ℕ) → List ℕ
bytes_read (received bytes) = bytes
bytes_read failed = []

pub serial_faithful :
    (r : Received (List ℕ)) (b : List ℕ) → sol_to_stream r ≡ forward b → b ≡ bytes_read r
unfolding sol_to_stream
serial_faithful (received []) b h = absurd (ground (arith, h))
serial_faithful (received (d ∷ bytes)) b h = ground (arith, h)
serial_faithful failed b h = absurd (ground (arith, h))

pub serial_idle : (r : Received (List ℕ)) → sol_to_stream r ≡ skip → bytes_read r ≡ []
unfolding sol_to_stream
serial_idle (received []) h = refl
serial_idle (received (d ∷ bytes)) h = absurd (ground (arith, h))
serial_idle failed h = refl

-- A SOL session.
unfoldable pub serial : Source (Received (List ℕ))
serial = record {
  bytes_of = bytes_read;
  verdict = sol_to_stream;
  faithful = serial_faithful;
  idle = serial_idle;
}

pub serial_data :
    (sid server_id : Text) (b : List ℕ)
    → (stream_to_sol (received (data_chunk sid server_id b)) ≡ forward b)
      ⊎ ((stream_to_sol (received (data_chunk sid server_id b)) ≡ skip) × (b ≡ []))
unfolding stream_to_sol data_chunk
serial_data sid server_id [] = inr (refl, refl)
serial_data sid server_id (d ∷ b) = inl (ground arith)

pub serial_others :
    (sid server_id : Text)
    → (stream_to_sol (received (close_chunk sid server_id)) ≡ stop)
      × (stream_to_sol (received (send_handshake_ack sid server_id)) ≡ skip)
unfolding stream_to_sol close_chunk send_handshake_ack
serial_others sid server_id = (refl, refl)

unfoldable pub to_serial : Sink
to_serial = record {
  verdict = λ c. stream_to_sol (received c);
  on_data = serial_data;
  on_close = λ sid server_id. (serial_others sid server_id).0;
  on_ack = λ sid server_id. (serial_others sid server_id).1;
}

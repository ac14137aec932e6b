-- ===== src/Streaming/Relay.antt =====
-- The two proxies of core/streaming between the gateway and an agent, and the stream between them.
-- One proxy has two loops that run concurrently; each goes on when the other has ended, until the
-- handler that started the proxy returns. A step is what one loop does with one item, an error that it
-- meets, the close of a proxy, or the return of its handler.
--
-- The relay begins when the agent has sent its acknowledgement. At the agent that is where the loops of
-- a serial console start. For graphics the handshake of Vnc/Proxy comes before it, with the same
-- gateway's proxy and another reader at the agent; what that reader has taken from the stream and
-- not used (LocalAgent/Stream/Lost) is not part of what is said here.
pub mod Pipes
pub mod Prefix
pub mod Drained
use conduit_bmc.Base.{Text, ℕ, ◌+◌, ◌≡◌, ◌⊎◌, Bool, true, false, List, [], ◌∷◌, ◌++◌}
use conduit_bmc.Streaming.{
  Chunk, Verdict, forward, skip, stop, data_chunk, close_chunk, send_handshake_ack,
}

-- A connection that a loop reads: the bytes of an item, and the loop's verdict on it.
pub record Source (I : Type 0) : Type 0 where
  pub bytes_of : I → List ℕ
  pub verdict : I → Verdict
  pub faithful : (i : I) (b : List ℕ) → verdict i ≡ forward b → b ≡ bytes_of i
  pub idle : (i : I) → verdict i ≡ skip → bytes_of i ≡ []

-- A loop that reads the stream.
pub record Sink : Type 0 where
  pub verdict : Chunk → Verdict
  pub on_data :
      (session_id server_id : Text) (b : List ℕ)
      → (verdict (data_chunk session_id server_id b) ≡ forward b)
        ⊎ ((verdict (data_chunk session_id server_id b) ≡ skip) × (b ≡ []))
  pub on_close : (session_id server_id : Text) → verdict (close_chunk session_id server_id) ≡ stop
  pub on_ack :
      (session_id server_id : Text) → verdict (send_handshake_ack session_id server_id) ≡ skip

-- One direction: the bytes that were said so far, the items that are not yet read, whether the loop at
-- the one end runs, the stream, whether that end has closed it, whether the loop at the other end
-- runs, and what it has written.
pub record Pipe (I : Type 0) : Type 0 where
  pub said : List ℕ
  pub pending : List I
  pub reading : Bool
  pub stream : List Chunk
  pub closed : Bool
  pub writing : Bool
  pub delivered : List ℕ

unfoldable pub after_read : {I : Type 0} → Text → Text → List I → Verdict → Pipe I → Pipe I
after_read session_id server_id rest (forward b) p = record p {
  pending = rest;
  stream = p.stream ++ (data_chunk session_id server_id b ∷ []);
}
after_read session_id server_id rest skip p = record p { pending = rest }
after_read session_id server_id rest stop p = record p { pending = rest; reading = false }

unfoldable pub after_receive : {I : Type 0} → List Chunk → Verdict → Pipe I → Pipe I
after_receive rest (forward b) p = record p { stream = rest; delivered = p.delivered ++ b }
after_receive rest skip p = record p { stream = rest }
after_receive rest stop p = record p { stream = rest; writing = false }

unfoldable pub close : {I : Type 0} → Text → Text → Pipe I → Pipe I
close session_id server_id p = record p {
  stream = p.stream ++ (close_chunk session_id server_id ∷ []);
  closed = true;
}

module _ (session_id server_id : Text) {I : Type 0} (source : Source I) (sink : Sink) where
  pub data Move (p : Pipe I) : Pipe I → Type 0 where
    says :
        (i : I)
        → Move p (record p { said = p.said ++ source.bytes_of i; pending = p.pending ++ (i ∷ []) })
    reads :
        (i : I) (rest : List I)
        → p.pending ≡ i ∷ rest
        → p.reading ≡ true
        → Move p (after_read session_id server_id rest (source.verdict i) p)
    read_fails : p.reading ≡ true → Move p (record p { reading = false })
    send_fails :
        (i : I) (rest : List I)
        → p.pending ≡ i ∷ rest
        → p.reading ≡ true
        → Move p (record p { pending = rest; reading = false })
    receives :
        (c : Chunk) (rest : List Chunk)
        → p.stream ≡ c ∷ rest
        → p.writing ≡ true
        → Move p (after_receive rest (sink.verdict c) p)
    receive_fails : p.writing ≡ true → Move p (record p { writing = false })
    write_fails :
        (c : Chunk) (rest : List Chunk)
        → p.stream ≡ c ∷ rest
        → p.writing ≡ true
        → Move p (record p { stream = rest; writing = false })

-- The gateway reads the browser and writes to `up`, the agent reads its server and writes to `down`.
pub record Relay (I J : Type 0) : Type 0 where
  pub up : Pipe I
  pub down : Pipe J
  pub gateway_open : Bool
  pub agent_open : Bool

unfoldable pub new_pipe : {I : Type 0} → List Chunk → Pipe I
new_pipe stream = record {
  said = [];
  pending = [];
  reading = true;
  stream = stream;
  closed = false;
  writing = true;
  delivered = [];
}

-- The agent's acknowledgement stands in its stream.
unfoldable pub new_relay : {I J : Type 0} → Text → Text → Relay I J
unfolding new_pipe
new_relay session_id server_id = record {
  up = new_pipe [];
  down = new_pipe (send_handshake_ack session_id server_id ∷ []);
  gateway_open = true;
  agent_open = true;
}

module _ (session_id server_id : Text) {I J : Type 0} (browser : Source I) (server : Source J)
    (at_agent at_gateway : Sink) where
  -- A proxy closes when one of its loops has reported an error.
  pub data Step (s : Relay I J) : Relay I J → Type 0 where
    up_moves :
        (p : Pipe I)
        → Move session_id server_id browser at_agent s.up p
        → Step s (record s { up = p })
    down_moves :
        (p : Pipe J)
        → Move session_id server_id server at_gateway s.down p
        → Step s (record s { down = p })
    gateway_closes :
        s.gateway_open ≡ true
        → (s.up.reading ≡ false) ⊎ (s.down.writing ≡ false)
        → Step s (record s { up = close session_id server_id s.up; gateway_open = false })
    agent_closes :
        s.agent_open ≡ true
        → (s.down.reading ≡ false) ⊎ (s.up.writing ≡ false)
        → Step s (record s { down = close session_id server_id s.down; agent_open = false })
    -- The handler closes the WebSocket, so both loops end.
    gateway_returns :
        s.gateway_open ≡ false
        → Step s (record s {
          up = record s.up { reading = false };
          down = record s.down { writing = false };
        })
    -- The stream ends with the handler, and the connection to the server is closed.
    agent_returns :
        s.agent_open ≡ false
        → Step s (record s {
          up = record s.up { writing = false };
          down = record s.down { reading = false };
        })

  pub data Run (s : Relay I J) : Relay I J → Type 0 where
    here : Run s s
    next : {t u : Relay I J} → Run s t → Step t u → Run s u

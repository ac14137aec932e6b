-- ===== src/Streaming/Tests.antt =====
-- A browser says two bytes to a serial console behind an agent.
use conduit_bmc.Base.{str, ℕ, ◌≡◌, refl, inl, true, false, List, [], ◌∷◌, ◌++◌}
use conduit_bmc.Streaming.{MessageType, binary_message, Received, websocket_to_stream}
use conduit_bmc.Streaming.Relay.{
  Pipe, Relay, says, read_fails, up_moves, Run, here, next, new_relay, new_pipe,
}
use conduit_bmc.Streaming.Loops.{browser, to_websocket}
use conduit_bmc.LocalAgent.Stream.Serial.{serial, to_serial}
use conduit_bmc.Streaming.Relay.Prefix.{Begins, Run-Begins}
use conduit_bmc.Streaming.Relay.Drained.{Moves, Run-delivers, Readable}
use conduit_bmc.Streaming.Closed.{Settles, Run-Settles}

abbrev message : MessageType × List ℕ
message = (binary_message, 104 ∷ 105 ∷ [])

abbrev start : Relay (MessageType × List ℕ) (Received (List ℕ))
start = new_relay (str "sol-1") (str "h1")

-- The message has been said.
abbrev said : Relay (MessageType × List ℕ) (Received (List ℕ))
said = record start {
  up = record start.up {
    said = start.up.said ++ browser.bytes_of message;
    pending = start.up.pending ++ (message ∷ []);
  };
}

run : Run (str "sol-1") (str "h1") browser serial to_serial to_websocket start said
run = next here (up_moves _ (says message))

Run-Begins_example :
    Begins said.up.delivered said.up.said × Begins said.down.delivered said.down.said
Run-Begins_example = Run-Begins (str "sol-1") (str "h1") browser serial to_serial to_websocket run

readable : Readable (str "sol-1") (str "h1") browser to_serial said.up.pending
unfolding new_relay new_pipe browser websocket_to_stream
readable = (λ e. cc e, tt)

open_pipe : (said.up.reading ≡ true) × (said.up.writing ≡ true)
unfolding new_relay new_pipe
open_pipe = (refl, refl)

open_proxies : (said.gateway_open ≡ true) × (said.agent_open ≡ true)
unfolding new_relay
open_proxies = (refl, refl)

Run-delivers_example :
    (q : Pipe (MessageType × List ℕ)) × Moves (str "sol-1") (str "h1") browser to_serial said.up q
    × Run
        (str "sol-1")
        (str "h1")
        browser
        serial
        to_serial
        to_websocket
        said
        (record said { up = q })
    × (q.said ≡ said.up.said)
    × (q.delivered ≡ said.up.said)
Run-delivers_example =
    Run-delivers (str "sol-1") (str "h1") browser serial to_serial to_websocket run open_proxies.0
      open_proxies.1 open_pipe.0 open_pipe.1 readable

-- The browser's connection fails.
abbrev broken : Relay (MessageType × List ℕ) (Received (List ℕ))
broken = record said { up = record said.up { reading = false } }

run_broken : Run (str "sol-1") (str "h1") browser serial to_serial to_websocket start broken
run_broken = next run (up_moves _ (read_fails open_pipe.0))

Run-Settles_example : Settles (str "sol-1") (str "h1") browser serial to_serial to_websocket broken
Run-Settles_example =
    Run-Settles (str "sol-1") (str "h1") browser serial to_serial to_websocket run_broken (inl refl)

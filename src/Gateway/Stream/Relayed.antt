-- ===== src/Gateway/Stream/Relayed.antt =====
-- When the handler of a console stream returns.
use conduit_bmc.Base.{All, Text, ◌≡◌, refl, true, false, none, List, [], ◌∷◌, ◌++◌, arith}
use conduit_bmc.Gateway.Stream.{
  Arrival, arrives, breaks, returned, console_loop, proxy_console_streams,
}

-- The chunk is sent on, and does not close the stream.
abbrev pub Passes : Arrival → Type 0
Passes (arrives c sent) = (sent ≡ true) × (c.close_stream ≡ false)
Passes breaks = ⊥

-- The chunk is sent on, and closes the stream.
abbrev pub Closes : Arrival → Type 0
Closes (arrives c sent) = (sent ≡ true) × (c.close_stream ≡ true)
Closes breaks = ⊥

pub console_loop-closed :
    (before : List Arrival) (a : Arrival) (later : List Arrival)
    → All Passes before
    → Closes a
    → console_loop (before ++ (a ∷ later)) ≡ returned
unfolding console_loop
console_loop-closed [] (arrives c sent) later p h = ground (arith, h.0, h.1)
console_loop-closed [] breaks later p h = absurd h
console_loop-closed (arrives c sent ∷ before) a later p h =
    ground (arith, p.0.0, p.0.1, console_loop-closed before a later p.1 h)
console_loop-closed (breaks ∷ before) a later p h = absurd p.0

-- When both sides of a console stream end by a close signal, with every chunk before it sent on, both
-- loops have returned and the handler does not, whatever arrives afterwards.
pub proxy_console_streams-closed :
    (session_id server_id : Text) (from_agent from_client : List Arrival) (a c : Arrival)
    (later later' : List Arrival)
    → All Passes from_agent
    → All Passes from_client
    → Closes a
    → Closes c
    → (console_loop (from_agent ++ (a ∷ later)) ≡ returned)
      × (console_loop (from_client ++ (c ∷ later')) ≡ returned)
      × (proxy_console_streams session_id server_id
            (from_agent ++ (a ∷ later))
            (from_client ++ (c ∷ later'))
          ≡ none)
unfolding proxy_console_streams
proxy_console_streams-closed session_id server_id from_agent from_client a c later later' p q h k =
    let e = console_loop-closed from_agent a later p h in
    let f = console_loop-closed from_client c later' q k in (e, f, rw (e, f) refl)

-- ===== src/Gateway/Stream/AnyServer.antt =====
-- Which server a console stream reaches.
use conduit_bmc.Base.{
  ltb, Text, lookup, lookup-insert_self, ok, ℕ, ◌≡◌, refl, ap, ◌∙◌, true, false, some, arith,
}
use conduit_bmc.Types.Endpoints.{SolEndpoint}
use conduit_bmc.Types.Server.{Server}
use conduit_bmc.Types.Discovery.{DiscoveryMetadata}
use conduit_bmc.Agents.{Info, get}
use conduit_bmc.Streaming.{received, send_handshake, send_handshake_ack, receive_handshake}
use conduit_bmc.Gateway.{Gateway, Context, ConsoleSession}
use conduit_bmc.Gateway.Access.{Validator}
use conduit_bmc.Gateway.Console.{
  CreateSessionResponse, create_sol_session, get_console_session_by_id, store_session, unexpired,
}
use conduit_bmc.Gateway.Console.Lifetime.{sol, deadline, create-Opened}
use conduit_bmc.Gateway.Stream as GatewayStream
use conduit_bmc.Gateway.Stream.{ConsoleStream}
use conduit_bmc.LocalAgent.{LocalAgent}
use conduit_bmc.LocalAgent.Stream.{SolStream, skips_verification}
use conduit_bmc.LocalAgent.Stream as AgentStream

opened :
    (session_id other : Text) (now : ℕ) (g : Gateway) (s : ConsoleSession) (info : Info)
    → get_console_session_by_id now session_id g ≡ some s
    → get s.agent_id g.agent_registry ≡ some info
    → GatewayStream.stream_console_data now
        (received (send_handshake session_id other))
        (λ e. true)
        true
        g
      ≡ ok (record {
        agent_endpoint = info.endpoint;
        to_agent = send_handshake session_id other;
        to_client = send_handshake_ack session_id other;
      })
unfolding GatewayStream.stream_console_data receive_handshake send_handshake send_handshake_ack
opened session_id other now g s info h k = rw h (rw k refl)

attached :
    (session_id other : Text) (agent : LocalAgent) (s : Server DiscoveryMetadata)
    (endpoint : SolEndpoint)
    → lookup other agent.discovered_servers ≡ some s
    → s.sol_endpoint ≡ some endpoint
    → AgentStream.stream_console_data
        (λ t. true)
        (λ e skips. true)
        true
        (received (send_handshake session_id other))
        agent
      ≡ ok (record {
        at = endpoint;
        insecure_skip_verify = skips_verification s;
        ack = send_handshake_ack session_id other;
      })
unfolding AgentStream.stream_console_data receive_handshake send_handshake send_handshake_ack
attached session_id other agent s endpoint h k = rw h (rw k refl)

found :
    (now : ℕ) (session_id : Text) (s : ConsoleSession) (g : Gateway)
    → lookup session_id g.console_sessions ≡ some s
    → ltb s.expires_at now ≡ false
    → get_console_session_by_id now session_id g ≡ some s
unfolding get_console_session_by_id unexpired
found now session_id s g h k = rw h (rw k refl)

-- After a SOL session was created for one server, a console stream with the session's id and the id of
-- any other server is opened before the session's deadline, when the agent of the created session knows
-- the other server and has a SOL endpoint for it, the handshakes can be sent, and the agent's SOL client
-- makes a session: no token is asked for, the gateway opens the stream at
-- the address that the session's agent has registered with the other server's id, and the agent at
-- that address attaches to the other server. `agents` gives the agent at each address.
pub stream_console_data-create :
    (validate : Validator) (id_time created_at now : ℕ) (ctx : Context) (server_id : Text)
    (g : Gateway) (response : CreateSessionResponse) (after : Gateway) (session : ConsoleSession)
    (info : Info) (later : ℕ) (other : Text) (agents : Text → LocalAgent)
    (s : Server DiscoveryMetadata) (endpoint : SolEndpoint)
    → create_sol_session validate now id_time created_at ctx server_id g ≡ ok (response, after)
    → lookup response.session_id after.console_sessions ≡ some session
    → get session.agent_id after.agent_registry ≡ some info
    → ltb (deadline (sol id_time created_at)) later ≡ false
    → lookup other (agents info.endpoint).discovered_servers ≡ some s
    → s.sol_endpoint ≡ some endpoint
    → (stream : ConsoleStream) × (attachment : SolStream) × (session.server_id ≡ server_id)
      × (GatewayStream.stream_console_data later
            (received (send_handshake response.session_id other))
            (λ e. true)
            true
            after
          ≡ ok stream)
      × (stream.agent_endpoint ≡ info.endpoint)
      × (AgentStream.stream_console_data
            (λ t. true)
            (λ e skips. true)
            true
            (received stream.to_agent)
            (agents stream.agent_endpoint)
          ≡ ok attachment)
      × (attachment.at ≡ endpoint)
unfolding store_session
stream_console_data-create validate id_time created_at now ctx server_id g response after session
      info later other agents s endpoint h there registered d l e =
    let w = create-Opened validate (sol id_time created_at) now ctx server_id g response after h in
    let own : session ≡ w.session = ground (
      arith,
      there,
      w.stored,
      w.answered,
      lookup-insert_self w.session.session_id w.session g.console_sessions,
    ) in
    (
      _,
      _,
      ap (λ x. x.server_id) own ∙ w.server,
      opened response.session_id other later after session info
          (found later response.session_id session after there (ground (arith, own, w.expires)))
          registered,
      refl,
      attached response.session_id other (agents info.endpoint) s endpoint l e,
      refl,
    )

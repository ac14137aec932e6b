-- ===== src/LocalAgent/Loop.antt =====
-- local-agent/internal/agent/agent.go: the first registration, the main loop of `Start`, and the
-- heartbeats. What the discovery finds and what the gateway answers is given with each event.
pub mod Registered
mod Tests
pub mod Idle
pub mod Recovers
use conduit_bmc.Base.{
  if◌then◌else◌, take, ℕ, ◌+◌, ◌^◌, min, ◌≡◌, Bool, true, false, not, Option, List, [], ◌∷◌, map,
}
use conduit_bmc.Types.Server.{Server}
use conduit_bmc.Types.Discovery.{DiscoveryMetadata}
use conduit_bmc.Gateway.Register.{RegisterAgentRequest, AgentHeartbeatRequest}
use conduit_bmc.LocalAgent.{LocalAgent, AgentConfig, server_report, discover_and_register}

-- One attempt: what the discovery finds, and whether the gateway takes a registration.
pub record Attempt : Type 0 where
  pub found : Option (List (Server DiscoveryMetadata))
  pub accepts : RegisterAgentRequest → Bool

-- A wait after an attempt that failed, in seconds.
unfoldable pub delay : ℕ → ℕ
delay attempt = min (2 ^ attempt) 30

-- The loop of `retryRegistration`, on the attempts that are left and the number of the next one: the
-- seconds that are waited, and the agent.
unfoldable pub attempts_loop : AgentConfig → List Attempt → ℕ → LocalAgent → ℕ × LocalAgent
unfolding delay
attempts_loop config [] attempt agent = (0, agent)
attempts_loop config (a ∷ later) attempt agent =
    let (done, after) = discover_and_register config a.found a.accepts agent in
    let (waited, last) = attempts_loop config later (attempt + 1) after in
    if done then (0, after) else (delay attempt + waited, last)

abbrev pub max_retries : ℕ
max_retries = 5

-- The attempts that would be made; the sixth never is. A list that is shorter is a cancelled context.
unfoldable pub retry_registration : AgentConfig → List Attempt → LocalAgent → ℕ × LocalAgent
unfolding attempts_loop
retry_registration config attempts = attempts_loop config (take max_retries attempts) 0

-- The requests carry the fields that are modelled of a registration.
unfoldable pub heartbeat : AgentConfig → LocalAgent → AgentHeartbeatRequest
heartbeat config agent = record {
  agent_id = config.id;
  bmc_endpoints = map (λ (id, server). server_report server) agent.discovered_servers;
}

-- Whether a heartbeat is without an error. None is sent by an agent that is not registered.
unfoldable pub send_heartbeat : AgentConfig → (AgentHeartbeatRequest → Bool) → LocalAgent → Bool
unfolding heartbeat
send_heartbeat config accepts agent =
    if not agent.registered then true else accepts (heartbeat config agent)

-- The agent, and whether the ticker for fast retries runs.
pub record MainLoop : Type 0 where
  pub agent : LocalAgent
  pub retrying : Bool

-- Where the main loop starts, behind the first registration.
unfoldable pub start : AgentConfig → List Attempt → LocalAgent → MainLoop
unfolding retry_registration
start config attempts agent = record {
  agent = (retry_registration config attempts agent).1;
  retrying = false;
}

failed_with : LocalAgent → MainLoop
failed_with agent = record { agent = record agent { registered = false }; retrying = true }

unfoldable pub on_tick : AgentConfig → Attempt → MainLoop → MainLoop
unfolding failed_with
on_tick config a s =
    let (done, after) = discover_and_register config a.found a.accepts s.agent in
    if done then record s { agent = after } else failed_with after

unfoldable pub on_retry : AgentConfig → Attempt → MainLoop → MainLoop
on_retry config a s =
    let (done, after) = discover_and_register config a.found a.accepts s.agent in
    if s.agent.registered
    then s
    else if done
    then record { agent = after; retrying = false }
    else record s { agent = after }

unfoldable pub on_heartbeat : AgentConfig → (AgentHeartbeatRequest → Bool) → MainLoop → MainLoop
unfolding failed_with send_heartbeat
on_heartbeat config accepts s =
    if send_heartbeat config accepts s.agent then s else failed_with s.agent

module _ (config : AgentConfig) where
  -- One turn of the loop; the ticker for retries only fires while it runs.
  pub data Turn (s : MainLoop) : MainLoop → Type 0 where
    ticks : (a : Attempt) → Turn s (on_tick config a s)
    retries : (a : Attempt) → s.retrying ≡ true → Turn s (on_retry config a s)
    beats : (accepts : AgentHeartbeatRequest → Bool) → Turn s (on_heartbeat config accepts s)

  pub data Turns (s : MainLoop) : MainLoop → Type 0 where
    none_yet : Turns s s
    then_turn : {t u : MainLoop} → Turns s t → Turn t u → Turns s u

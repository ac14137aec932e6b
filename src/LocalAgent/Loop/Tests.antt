-- ===== src/LocalAgent/Loop/Tests.antt =====
-- The main loop of an agent at concrete inputs.
use conduit_bmc.Base.{str, lookup, ◌≡◌, refl, inl, Bool, true, false, none, some, List, [], ◌∷◌}
use conduit_bmc.Agents.{Info, get}
use conduit_bmc.Gateway.{Gateway}
use conduit_bmc.Gateway.Register.{AgentHeartbeatRequest, register_agent}
use conduit_bmc.LocalAgent.{LocalAgent, AgentConfig, registration, discover_and_register}
use conduit_bmc.LocalAgent.Loop.{
  Attempt, MainLoop, retry_registration, start, on_retry, on_heartbeat, Turns, none_yet, then_turn,
  retries, beats,
}
use conduit_bmc.LocalAgent.Loop.Registered.{Trying, Turns-Trying}
use conduit_bmc.LocalAgent.Loop.Recovers.{
  takes_heartbeat, takes_registration, on_retry-on_heartbeat,
}
use conduit_bmc.LocalAgent.Loop.Idle.{Fails, Idle, start-Idle}

abbrev config : AgentConfig
config = record { id = str "a1"; datacenter_id = str "dc"; endpoint = str "http://a1" }

-- The gateway that knows no agent.
abbrev gateway : Gateway
gateway = record {
  external_endpoint = str "gw";
  agent_registry = [];
  bmc_endpoint_mapping = [];
  console_sessions = [];
}

abbrev registered : MainLoop
registered = record {
  agent = record { discovered_servers = []; registered = true };
  retrying = false;
}

abbrev attempt : Attempt
attempt = record { found = some []; accepts = takes_registration 9 gateway }

abbrev refuses : AgentHeartbeatRequest → Bool
refuses r = false

fast : (on_heartbeat config refuses registered).retrying ≡ true
unfolding on_heartbeat
fast = refl

-- A heartbeat that is refused, and a retry.
run : Turns config registered (on_retry config attempt (on_heartbeat config refuses registered))
run = then_turn (then_turn none_yet (beats refuses)) (retries attempt fast)

Turns-Trying_example : Trying (on_retry config attempt (on_heartbeat config refuses registered))
Turns-Trying_example = Turns-Trying config registered _ (inl refl) run

nobody : get config.id gateway.agent_registry ≡ none
unfolding get lookup
nobody = refl

on_retry-on_heartbeat_example :
    ((on_heartbeat config (takes_heartbeat 7 gateway) registered).agent.registered ≡ false)
    × ((on_heartbeat config (takes_heartbeat 7 gateway) registered).retrying ≡ true)
    × ((on_retry config attempt
          (on_heartbeat config (takes_heartbeat 7 gateway) registered)).agent.registered
        ≡ true)
    × ((on_retry config attempt
          (on_heartbeat config (takes_heartbeat 7 gateway) registered)).retrying
        ≡ false)
    × (info : Info) × (get config.id
          (register_agent 9 (registration config []) gateway).1.agent_registry
        ≡ some info)
    × (info.endpoint ≡ config.endpoint)
on_retry-on_heartbeat_example = on_retry-on_heartbeat config 7 9 gateway registered [] refl nobody

abbrev fresh : LocalAgent
fresh = record { discovered_servers = []; registered = false }

abbrev unanswered : Attempt
unanswered = record { found = some []; accepts = λ r. false }

fails : Fails config unanswered
unfolding discover_and_register
fails agent = refl

abbrev five : List Attempt
five = unanswered ∷ unanswered ∷ unanswered ∷ unanswered ∷ unanswered ∷ []

abbrev begun : MainLoop
begun = start config five fresh

heartbeats : Turns config begun (on_heartbeat config (λ r. true) begun)
heartbeats = then_turn none_yet (beats (λ r. true))

start-Idle_example :
    ((retry_registration config five fresh).0 ≡ 31)
    × (begun.agent.registered ≡ false)
    × Idle config begun (on_heartbeat config (λ r. true) begun)
start-Idle_example =
    start-Idle config unanswered unanswered unanswered unanswered unanswered [] fresh
      (on_heartbeat config (λ r. true) begun) refl (fails, (fails, (fails, (fails, (fails, tt)))))
      heartbeats

-- ===== src/LocalAgent/Loop/Recovers.antt =====
-- An agent whose gateway has lost it, because it started anew or removed the agent.
use conduit_bmc.Base.{
  str, same_refl, ok, err, ℕ, ◌≡◌, refl, ap, ◌∙◌, Bool, true, false, none, some, List, arith,
}
use conduit_bmc.Types.Server.{Server}
use conduit_bmc.Types.Discovery.{DiscoveryMetadata}
use conduit_bmc.Agents.{get, Info, register, Registry}
use conduit_bmc.Agents.Laws.{get-register}
use conduit_bmc.Gateway.{Gateway}
use conduit_bmc.Gateway.Register.{
  RegisterAgentRequest, AgentHeartbeatRequest, register_agent, agent_heartbeat,
}
use conduit_bmc.Gateway.Register.Mapped.{agent_heartbeat_unknown}
use conduit_bmc.LocalAgent.{AgentConfig, registration, discover_and_register}
use conduit_bmc.LocalAgent.Loop.{
  Attempt, MainLoop, heartbeat, send_heartbeat, on_retry, on_heartbeat,
}

-- The gateway's answers, at the time `now`.
abbrev pub takes_heartbeat : ℕ → Gateway → AgentHeartbeatRequest → Bool
takes_heartbeat now g req = elim (agent_heartbeat now req g).0 [
  | ok response ↦ response.success
  | err f ↦ false
]

abbrev pub takes_registration : ℕ → Gateway → RegisterAgentRequest → Bool
takes_registration now g req = (register_agent now req g).0.success

known :
    (info : Info) (r : Registry)
    → get info.id (register info r) ≡ some (record info { status = str "active" })
known info r = get-register info info.id r ∙ rw (same_refl info.id) refl

module _ (config : AgentConfig) where
  lost :
      (now : ℕ) (g : Gateway) (s : MainLoop)
      → s.agent.registered ≡ true
      → get config.id g.agent_registry ≡ none
      → on_heartbeat config (takes_heartbeat now g) s
        ≡ record { agent = record s.agent { registered = false }; retrying = true }
  unfolding on_heartbeat send_heartbeat heartbeat
  lost now g s h u =
      let refused : takes_heartbeat now g (heartbeat config s.agent) ≡ false =
        ap (λ r. elim r.0 [ ok response ↦ response.success | err f ↦ false ])
          (agent_heartbeat_unknown now (heartbeat config s.agent) g u) in
      ground (arith, h, refused)

  -- The heartbeat of a registered agent that its gateway does not know is refused, after which the
  -- agent counts as unregistered and retries; the retry registers it with that gateway, which then
  -- knows the agent under its id and address, and the retries stop.
  pub on_retry-on_heartbeat :
      (now later : ℕ) (g : Gateway) (s : MainLoop) (found : List (Server DiscoveryMetadata))
      → s.agent.registered ≡ true
      → get config.id g.agent_registry ≡ none
      → let retry : Attempt = record { found = some found; accepts = takes_registration later g } in
        let after = on_heartbeat config (takes_heartbeat now g) s in
        let back = on_retry config retry after in
        (after.agent.registered ≡ false)
        × (after.retrying ≡ true)
        × (back.agent.registered ≡ true)
        × (back.retrying ≡ false)
        × (info : Info) × (get config.id
              (register_agent later (registration config found) g).1.agent_registry
            ≡ some info)
        × (info.endpoint ≡ config.endpoint)
  unfolding on_retry discover_and_register register_agent registration
  on_retry-on_heartbeat now later g s found h u =
      rw (lost now g s h u) (refl, refl, refl, refl, _, known _ g.agent_registry, refl)

-- ===== src/LocalAgent/Rpc/Panics.antt =====
-- Where the calls of local-agent/internal/agent/rpc_handlers.go follow a nil pointer.
use conduit_bmc.Base.{
  if◌then◌else◌, Option-cases, Text, is_empty, lookup, Result, ok, err, ◌≡◌, refl, ◌↔◌, inl, inr,
  Option, none, some, [], arith,
}
use conduit_bmc.Types.Endpoints.{BmcControlEndpoint}
use conduit_bmc.Types.Server.{Server, get_primary_control_endpoint, first_unless, of_protocol}
use conduit_bmc.Types.Server.Primary.{get_primary_control_endpoint-IsPrimary, IsPrimary}
use conduit_bmc.Types.Discovery.{DiscoveryMetadata}
use conduit_bmc.Gateway.Power.{
  Operation, power_on_op, power_off_op, power_cycle_op, reset_op, power_status_op,
}
use conduit_bmc.LocalAgent.{LocalAgent}
use conduit_bmc.LocalAgent.Bmc
use conduit_bmc.LocalAgent.Bmc.{Clients, guarded_call, primary_call}
use conduit_bmc.LocalAgent.Rpc.{
  Outcome, panics, returns, at_server, power_rpc, power_on, power_off, power_cycle, reset,
  get_power_status, state_of,
}

-- The id is that of a server without control endpoints.
abbrev pub WithoutEndpoints : Text → LocalAgent → Type 0
WithoutEndpoints id agent =
    (s : Server DiscoveryMetadata) × (lookup id agent.discovered_servers ≡ some s)
    × (s.control_endpoints ≡ [])

no_endpoints :
    (s : Server DiscoveryMetadata) (o : Option BmcControlEndpoint)
    → IsPrimary s o
    → o ≡ none
    → s.control_endpoints ≡ []
no_endpoints s none (conduit_bmc.Types.Server.Primary.no_endpoint h) e = h
no_endpoints s (some d) p e = absurd (ground (arith, e))

no_first : (found : Option BmcControlEndpoint) → first_unless found [] ≡ none
unfolding first_unless
no_first found = refl

no_primary :
    (s : Server DiscoveryMetadata)
    → s.control_endpoints ≡ []
    → get_primary_control_endpoint s ≡ none
unfolding get_primary_control_endpoint
no_primary s h = rw h (
    no_first (
      if is_empty s.primary_protocol
      then none
      else of_protocol s.primary_protocol s.control_endpoints))

at_server-panics :
    (call : Server DiscoveryMetadata → Result Bmc.Error Text) (s : Server DiscoveryMetadata)
    → (at_server call s ≡ panics) ↔ (s.control_endpoints ≡ [])
unfolding at_server
at_server-panics call s = (
  λ h.
      no_endpoints s (get_primary_control_endpoint s) (get_primary_control_endpoint-IsPrimary s)
        (ground (arith, h)),
  λ h. ground (arith, no_primary s h),
)

power_rpc-panics :
    (call : Server DiscoveryMetadata → Result Bmc.Error Text) (id : Text) (agent : LocalAgent)
    → (power_rpc call id agent ≡ panics) ↔ WithoutEndpoints id agent
unfolding power_rpc
power_rpc-panics call id agent = elim (Option-cases (lookup id agent.discovered_servers)) [
  | inl n ↦ (λ h. absurd (ground (arith, n, h)), λ (s, l, e). absurd (ground (arith, n, l)))
  | inr (s, l) ↦ (
    λ h. (s, l, (at_server-panics call s).0 (ground (arith, l, h))),
    λ (t, m, e). ground (arith, l, m, (at_server-panics call t).1 e),
  )
]

state_of-panics : (o : Outcome Text) → (state_of o ≡ panics) ↔ (o ≡ panics)
state_of-panics panics = (λ h. refl, λ h. refl)
state_of-panics (returns (ok t)) =
    (λ h. absurd (ground (arith, h)), λ h. absurd (ground (arith, h)))
state_of-panics (returns (err f)) =
    (λ h. absurd (ground (arith, h)), λ h. absurd (ground (arith, h)))

-- Each of the agent's power calls, the status included, panics exactly when the id is that of a
-- server without control endpoints, whatever the clients are.
pub power_rpcs-panics :
    (clients : Clients) (id : Text) (agent : LocalAgent)
    → ((power_on clients id agent ≡ panics) ↔ WithoutEndpoints id agent)
      × ((power_off clients id agent ≡ panics) ↔ WithoutEndpoints id agent)
      × ((power_cycle clients id agent ≡ panics) ↔ WithoutEndpoints id agent)
      × ((reset clients id agent ≡ panics) ↔ WithoutEndpoints id agent)
      × ((get_power_status clients id agent ≡ panics) ↔ WithoutEndpoints id agent)
unfolding power_on power_off power_cycle reset get_power_status
power_rpcs-panics clients id agent =
    let on_all : (operation : Operation)
        → (power_rpc (guarded_call clients operation) id agent ≡ panics)
          ↔ WithoutEndpoints id agent =
      λ operation. power_rpc-panics (guarded_call clients operation) id agent in
    let status = state_of-panics (power_rpc (guarded_call clients power_status_op) id agent) in
    let known = on_all power_status_op in
    (
      on_all power_on_op,
      on_all power_off_op,
      on_all power_cycle_op,
      power_rpc-panics (primary_call clients reset_op) id agent,
      (λ h. known.0 (status.0 h), λ w. status.1 (known.1 w)),
    )

-- ===== src/LocalAgent/Rpc.antt =====
-- local-agent/internal/agent/rpc_handlers.go: the calls that the gateway makes at the agent.
pub mod Panics
use conduit_bmc.Base.{if◌then◌else◌, Text, str, same, lookup, Result, ok, err, ◌||◌, none, some}
use conduit_bmc.Types.Server.{Server, get_primary_control_endpoint}
use conduit_bmc.Types.Discovery.{DiscoveryMetadata}
use conduit_bmc.Gateway.Power.{power_on_op, power_off_op, power_cycle_op, reset_op, power_status_op}
use conduit_bmc.LocalAgent.{LocalAgent}
use conduit_bmc.LocalAgent.Bmc
use conduit_bmc.LocalAgent.Bmc.{Clients, guarded_call, primary_call}

pub data Failure : Type 0 where
  server_not_found : Text → Failure
  operation_failed : Bmc.Error → Failure

-- A call that panics, as where a nil pointer is followed, or its result.
pub data Outcome (A : Type 0) : Type 0 where
  panics : Outcome A
  returns : Result Failure A → Outcome A

abbrev replaced : {A : Type 0} → Result Bmc.Error A → Result Failure A
replaced (ok a) = ok a
replaced (err f) = err (operation_failed f)

-- The type of the primary endpoint is read, for the metrics, before the client is asked.
unfoldable pub at_server :
    (Server DiscoveryMetadata → Result Bmc.Error Text) → Server DiscoveryMetadata → Outcome Text
at_server call server = elim (get_primary_control_endpoint server) [
  | none ↦ panics
  | some e ↦ returns (replaced (call server))
]

unfoldable pub power_rpc :
    (Server DiscoveryMetadata → Result Bmc.Error Text) → Text → LocalAgent → Outcome Text
unfolding at_server
power_rpc call server_id agent = elim (lookup server_id agent.discovered_servers) [
  | none ↦ returns (err (server_not_found server_id))
  | some server ↦ at_server call server
]

unfoldable pub power_on : Clients → Text → LocalAgent → Outcome Text
unfolding power_rpc
power_on clients server_id agent = power_rpc (guarded_call clients power_on_op) server_id agent

unfoldable pub power_off : Clients → Text → LocalAgent → Outcome Text
unfolding power_rpc
power_off clients server_id agent = power_rpc (guarded_call clients power_off_op) server_id agent

unfoldable pub power_cycle : Clients → Text → LocalAgent → Outcome Text
unfolding power_rpc
power_cycle clients server_id agent =
    power_rpc (guarded_call clients power_cycle_op) server_id agent

unfoldable pub reset : Clients → Text → LocalAgent → Outcome Text
unfolding power_rpc
reset clients server_id agent = power_rpc (primary_call clients reset_op) server_id agent

pub data PowerState : Type 0 where
  state_on state_off state_unknown : PowerState

unfoldable pub power_state_of : Text → PowerState
power_state_of state =
    if same state (str "on") || same state (str "On")
    then state_on
    else if same state (str "off") || same state (str "Off")
    then state_off
    else state_unknown

abbrev state_of : Outcome Text → Outcome PowerState
state_of panics = panics
state_of (returns (ok t)) = returns (ok (power_state_of t))
state_of (returns (err f)) = returns (err f)

unfoldable pub get_power_status : Clients → Text → LocalAgent → Outcome PowerState
unfolding power_rpc power_state_of
get_power_status clients server_id agent =
    state_of (power_rpc (guarded_call clients power_status_op) server_id agent)

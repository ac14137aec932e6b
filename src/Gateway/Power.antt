-- ===== src/Gateway/Power.antt =====
-- Power operations, power status and BMC information of gateway/internal/gateway/handler.go. A method
-- answers with the call that it makes on an agent, whose result it returns unchanged, or a failure.
pub mod Admitted
pub mod Guarded
use conduit_bmc.Base.{ℕ, Option, none, some, Result, ok, err, or_fail, ◌>>=◌, ◌>>◌, Text, lookup}
use conduit_bmc.Agents.{Info, get}
use conduit_bmc.Auth.Context.{ServerContext}
use conduit_bmc.Gateway.{
  AgentBmcMapping, Gateway, Context, Failure, endpoint_not_found, agent_not_available,
}
use conduit_bmc.Gateway.Access.{Validator, authorize, may_write_power, may_read_power}

pub data Operation : Type 0 where
  power_on_op power_off_op power_cycle_op reset_op : Operation
  power_status_op bmc_info_op : Operation

-- A call of an agent's service: where, which method, and the server id in the request.
pub record AgentCall : Type 0 where
  pub agent_endpoint : Text
  pub operation : Operation
  pub server_id : Text

-- The mapping of an endpoint and its agent.
unfoldable pub find_agent : Gateway → Text → Result Failure (AgentBmcMapping × Info)
find_agent g e = do
  mapping ← or_fail (lookup e g.bmc_endpoint_mapping) (endpoint_not_found e)
  agent ← or_fail (get mapping.agent_id g.agent_registry) (agent_not_available mapping.agent_id)
  ok (mapping, agent)

unfoldable pub proxy_power_operation : Gateway → Text → Operation → Result Failure AgentCall
proxy_power_operation g e operation = do
  (mapping, agent) ← find_agent g e
  ok (record {
    agent_endpoint = agent.endpoint;
    operation = operation;
    server_id = mapping.server_id;
  })

module _ (validate : Validator) where
  power_operation : Operation → ℕ → Context → Text → Gateway → Result Failure AgentCall
  power_operation operation now ctx server_id g = do
    sc ← authorize validate now ctx server_id may_write_power
    proxy_power_operation g sc.bmc_endpoint operation

  unfoldable pub power_on : ℕ → Context → Text → Gateway → Result Failure AgentCall
  unfolding power_operation
  power_on = power_operation power_on_op

  unfoldable pub power_off : ℕ → Context → Text → Gateway → Result Failure AgentCall
  unfolding power_operation
  power_off = power_operation power_off_op

  unfoldable pub power_cycle : ℕ → Context → Text → Gateway → Result Failure AgentCall
  unfolding power_operation
  power_cycle = power_operation power_cycle_op

  unfoldable pub reset : ℕ → Context → Text → Gateway → Result Failure AgentCall
  unfolding power_operation
  reset = power_operation reset_op

  -- The request to the agent names the server of the token.
  query : Operation → ℕ → Context → Text → Gateway → Result Failure AgentCall
  query operation now ctx server_id g = do
    sc ← authorize validate now ctx server_id may_read_power
    (mapping, agent) ← find_agent g sc.bmc_endpoint
    ok (record { agent_endpoint = agent.endpoint; operation = operation; server_id = sc.server_id })

  unfoldable pub get_power_status : ℕ → Context → Text → Gateway → Result Failure AgentCall
  unfolding query
  get_power_status = query power_status_op

  unfoldable pub get_bmc_info : ℕ → Context → Text → Gateway → Result Failure AgentCall
  unfolding query
  get_bmc_info = query bmc_info_op

-- ===== src/Gateway/Power/Guarded.antt =====
-- When a power method reaches an agent, and which one.
use conduit_bmc.Base.{
  bind-ok, ℕ, ◌≡◌, ◌↔◌, true, some, Result, ok, Text, str, same_iff, lookup, arith,
}
use conduit_bmc.Agents.{Info, get}
use conduit_bmc.Auth.Context.{ServerContext, has_permission}
use conduit_bmc.Gateway.{AgentBmcMapping, Gateway, Context, Failure}
use conduit_bmc.Gateway.Access.{
  Validator, from_context, authorize, extract_server_context, may_write_power, may_read_power,
}
use conduit_bmc.Gateway.Power.{
  Operation, power_on_op, power_off_op, power_cycle_op, reset_op, power_status_op, bmc_info_op,
  AgentCall, find_agent, power_operation, query, proxy_power_operation, power_on, power_off,
  power_cycle, reset, get_power_status, get_bmc_info,
}
use conduit_bmc.Gateway.Power.Admitted.{authorize-ok, find_agent-Found}

pub data Method : Type 0 where
  on off cycle resets status info : Method

abbrev pub call_method :
    Validator → Method → ℕ → Context → Text → Gateway → Result Failure AgentCall
call_method validate on = power_on validate
call_method validate off = power_off validate
call_method validate cycle = power_cycle validate
call_method validate resets = reset validate
call_method validate status = get_power_status validate
call_method validate info = get_bmc_info validate

abbrev pub operation_of : Method → Operation
operation_of on = power_on_op
operation_of off = power_off_op
operation_of cycle = power_cycle_op
operation_of resets = reset_op
operation_of status = power_status_op
operation_of info = bmc_info_op

abbrev pub permission_of : Method → Text
permission_of status = str "power:read"
permission_of info = str "power:read"
permission_of _ = str "power:write"

-- The server that the agent is asked about: for power operations the one that the agent reported for
-- the endpoint, for queries the one of the token.
abbrev pub target : Method → ServerContext → AgentBmcMapping → Text
target status sc mapping = sc.server_id
target info sc mapping = sc.server_id
target _ sc mapping = mapping.server_id

-- The request is one of a token for this server, with the method's permission, and the token's
-- endpoint is mapped to a registered agent, which is called.
pub record Granted (validate : Validator) (permission : Text) (operation : Operation)
    (asked : ServerContext → AgentBmcMapping → Text) (now : ℕ) (ctx : Context) (server_id : Text)
    (g : Gateway) (call : AgentCall) : Type 0 where
  pub sc : ServerContext
  pub mapping : AgentBmcMapping
  pub agent : Info
  pub authentic : extract_server_context validate now ctx ≡ some sc
  pub for_server : sc.server_id ≡ server_id
  pub permitted : has_permission sc permission ≡ true
  pub mapped : lookup sc.bmc_endpoint g.bmc_endpoint_mapping ≡ some mapping
  pub registered : get mapping.agent_id g.agent_registry ≡ some agent
  pub called : call ≡ record {
    agent_endpoint = agent.endpoint;
    operation = operation;
    server_id = asked sc mapping;
  }

module _ (validate : Validator) where
  power_operation-Granted :
      (operation : Operation) (now : ℕ) (ctx : Context) (server_id : Text) (g : Gateway)
      (call : AgentCall)
      → power_operation validate operation now ctx server_id g ≡ ok call
      → Granted validate
          (str "power:write")
          operation
          (λ sc mapping. mapping.server_id)
          now
          ctx
          server_id
          g
          call
  unfolding power_operation proxy_power_operation
  power_operation-Granted operation now ctx server_id g call h =
      let (sc, p, h₁) = bind-ok (authorize validate now ctx server_id may_write_power) _ h in
      let ((mapping, agent), q, h₂) = bind-ok (find_agent g sc.bmc_endpoint) _ h₁ in
      let (authentic, for_server, permitted) =
        authorize-ok validate now ctx server_id may_write_power sc p in
      let f = find_agent-Found g sc.bmc_endpoint mapping agent q in
      record {
        sc = sc;
        mapping = mapping;
        agent = agent;
        authentic = authentic;
        for_server = for_server;
        permitted = unfold may_write_power in permitted;
        mapped = f.mapped;
        registered = f.registered;
        called = cc h₂;
      }

  query-Granted :
      (operation : Operation) (now : ℕ) (ctx : Context) (server_id : Text) (g : Gateway)
      (call : AgentCall)
      → query validate operation now ctx server_id g ≡ ok call
      → Granted validate
          (str "power:read")
          operation
          (λ sc mapping. sc.server_id)
          now
          ctx
          server_id
          g
          call
  unfolding query
  query-Granted operation now ctx server_id g call h =
      let (sc, p, h₁) = bind-ok (authorize validate now ctx server_id may_read_power) _ h in
      let ((mapping, agent), q, h₂) = bind-ok (find_agent g sc.bmc_endpoint) _ h₁ in
      let (authentic, for_server, permitted) =
        authorize-ok validate now ctx server_id may_read_power sc p in
      let f = find_agent-Found g sc.bmc_endpoint mapping agent q in
      record {
        sc = sc;
        mapping = mapping;
        agent = agent;
        authentic = authentic;
        for_server = for_server;
        permitted = unfold may_read_power in permitted;
        mapped = f.mapped;
        registered = f.registered;
        called = cc h₂;
      }

  Granted-power_operation :
      (operation : Operation) (now : ℕ) (ctx : Context) (server_id : Text) (g : Gateway)
      (call : AgentCall)
      → Granted validate
          (str "power:write")
          operation
          (λ sc mapping. mapping.server_id)
          now
          ctx
          server_id
          g
          call
      → power_operation validate operation now ctx server_id g ≡ ok call
  unfolding power_operation proxy_power_operation authorize from_context may_write_power find_agent
  Granted-power_operation operation now ctx server_id g call w = ground (
    arith,
    w.authentic,
    w.permitted,
    w.mapped,
    w.registered,
    w.called,
    (same_iff w.sc.server_id server_id).1 w.for_server,
  )

  Granted-query :
      (operation : Operation) (now : ℕ) (ctx : Context) (server_id : Text) (g : Gateway)
      (call : AgentCall)
      → Granted validate
          (str "power:read")
          operation
          (λ sc mapping. sc.server_id)
          now
          ctx
          server_id
          g
          call
      → query validate operation now ctx server_id g ≡ ok call
  unfolding query authorize from_context may_read_power find_agent
  Granted-query operation now ctx server_id g call w = ground (
    arith,
    w.authentic,
    w.permitted,
    w.mapped,
    w.registered,
    w.called,
    (same_iff w.sc.server_id server_id).1 w.for_server,
  )

  -- A power method calls an agent exactly when the request carries a server context for the server
  -- that it names, with the method's permission, and the context's BMC endpoint is mapped to a
  -- registered agent; that agent is called, with the method's own operation.
  pub call_method_iff :
      (m : Method) (now : ℕ) (ctx : Context) (server_id : Text) (g : Gateway) (call : AgentCall)
      → (call_method validate m now ctx server_id g ≡ ok call)
        ↔ Granted validate (permission_of m) (operation_of m) (target m) now ctx server_id g call
  unfolding power_on power_off power_cycle reset get_power_status get_bmc_info
  call_method_iff on now ctx s g call = (
    power_operation-Granted power_on_op now ctx s g call,
    Granted-power_operation power_on_op now ctx s g call,
  )
  call_method_iff off now ctx s g call = (
    power_operation-Granted power_off_op now ctx s g call,
    Granted-power_operation power_off_op now ctx s g call,
  )
  call_method_iff cycle now ctx s g call = (
    power_operation-Granted power_cycle_op now ctx s g call,
    Granted-power_operation power_cycle_op now ctx s g call,
  )
  call_method_iff resets now ctx s g call = (
    power_operation-Granted reset_op now ctx s g call,
    Granted-power_operation reset_op now ctx s g call,
  )
  call_method_iff status now ctx s g call = (
    query-Granted power_status_op now ctx s g call,
    Granted-query power_status_op now ctx s g call,
  )
  call_method_iff info now ctx s g call =
      (query-Granted bmc_info_op now ctx s g call, Granted-query bmc_info_op now ctx s g call)

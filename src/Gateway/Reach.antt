-- ===== src/Gateway/Reach.antt =====
-- The gateway under any sequence of its calls.
pub mod Sound
pub mod Preserved
use conduit_bmc.Base.{
  ℕ, ◌+◌, ◌*◌, ◌≤◌, ◌≡◌, refl, if◌then◌else◌, Bool, true, false, Option, none, some, List, [], ◌∷◌,
  Result, ok, err, Text, same, same_iff, Map, lookup, insert, delete, lookup-insert, lookup-delete,
  arith, is_empty, Option-cases, inl, inr,
}
use conduit_bmc.Gateway.{Gateway, Context, new_gateway}
use conduit_bmc.Gateway.Access.{Validator}
use conduit_bmc.Gateway.Register.{
  RegisterAgentRequest, AgentHeartbeatRequest, register_agent, agent_heartbeat,
}
use conduit_bmc.Gateway.Console.{
  CreateSessionResponse, remove_session, close_vnc_session, close_sol_session,
}
use conduit_bmc.Gateway.Console.Lifetime.{Kind, vnc, sol, create}

-- The clock does not go back between two of a method's readings.
abbrev pub InOrder : Kind → Type 0
InOrder (vnc id_time expiry_time created_at) = (id_time ≤ expiry_time) × (expiry_time ≤ created_at)
InOrder (sol id_time created_at) = id_time ≤ created_at

-- The calls that change the state, at any times and with any contexts, and `removes`, which runs at
-- some time after a lookup has found the session expired.
pub data Step (validate : Validator) : Gateway → Gateway → Type 0 where
  registers :
      (now : ℕ) (req : RegisterAgentRequest) (g : Gateway)
      → Step validate g (register_agent now req g).1
  heartbeats :
      (now : ℕ) (req : AgentHeartbeatRequest) (g : Gateway)
      → Step validate g (agent_heartbeat now req g).1
  creates :
      (k : Kind) (now : ℕ) (ctx : Context) (server_id : Text) (g : Gateway)
      (response : CreateSessionResponse) (after : Gateway)
      → InOrder k
      → create validate k now ctx server_id g ≡ ok (response, after)
      → Step validate g after
  closes_vnc :
      (ctx : Context) (id : Text) (g after : Gateway)
      → close_vnc_session ctx id g ≡ ok after
      → Step validate g after
  closes_sol :
      (now : ℕ) (ctx : Context) (id : Text) (g after : Gateway)
      → close_sol_session validate now ctx id g ≡ ok after
      → Step validate g after
  removes : (id : Text) (g : Gateway) → Step validate g (remove_session id g)

pub data Reachable (validate : Validator) (external_endpoint : Text) : Gateway → Type 0 where
  starts : Reachable validate external_endpoint (new_gateway external_endpoint)
  steps :
      {g after : Gateway}
      → Reachable validate external_endpoint g
      → Step validate g after
      → Reachable validate external_endpoint after

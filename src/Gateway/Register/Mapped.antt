-- ===== src/Gateway/Register/Mapped.antt =====
-- What a report maps to its agent.
use conduit_bmc.Base.{
  ℕ, ◌≡◌, refl, ◌⊎◌, inl, inr, Bool, true, false, ◌&&◌, ◌||◌, not, Option, none, some, List, [],
  ◌∷◌, Text, same, same_iff, Map, lookup, lookup-insert, is_empty, arith, Bool-cases, ◌∙◌, err,
}
use mathlib.Core.List.{Memᴰ}
use mathlib.Core.List.Memᴰ.{head, tail}
use conduit_bmc.Agents.{get, update_last_seen}
use conduit_bmc.Gateway.{AgentBmcMapping, Gateway, agent_not_found}
use conduit_bmc.Gateway.Register.{
  ControlEndpoint, EndpointReport, Reporter, RegisterAgentRequest, AgentHeartbeatRequest,
  mapping_of, map_control, map_controls, map_servers, register_agent, agent_heartbeat,
}

-- A control endpoint, not nil, that has the address `e`, which is not empty.
abbrev pub has_address : Text → Option ControlEndpoint → Bool
has_address e none = false
has_address e (some c) = not (is_empty c.endpoint) && same c.endpoint e

abbrev pub in_controls : Text → List (Option ControlEndpoint) → Bool
in_controls e [] = false
in_controls e (c ∷ cs) = has_address e c || in_controls e cs

abbrev pub in_report : Text → List EndpointReport → Bool
in_report e [] = false
in_report e (s ∷ ss) = in_controls e s.control_endpoints || in_report e ss

-- A mapping of `e` that was made from the report of `by` and lies in `servers`.
pub record MadeFrom (by : Reporter) (servers : List EndpointReport) (e : Text)
    (o : Option AgentBmcMapping) : Type 0 where
  pub server : EndpointReport
  pub control : ControlEndpoint
  pub from_server : Memᴰ server servers
  pub from_control : Memᴰ (some control) server.control_endpoints
  pub address : control.endpoint ≡ e
  pub made : o ≡ some (mapping_of by server control)

map_control-other :
    (by : Reporter) (s : EndpointReport) (c : Option ControlEndpoint) (e : Text)
    (m : Map AgentBmcMapping)
    → has_address e c ≡ false
    → lookup e (map_control by s c m) ≡ lookup e m
unfolding map_control
map_control-other by s none e m h = refl
map_control-other by s (some c) e m h =
    ground (arith, lookup-insert c.endpoint e (mapping_of by s c) m)

map_control-address :
    (by : Reporter) (s : EndpointReport) (c : ControlEndpoint) (e : Text) (m : Map AgentBmcMapping)
    → has_address e (some c) ≡ true
    → (lookup e (map_control by s (some c) m) ≡ some (mapping_of by s c)) × (c.endpoint ≡ e)
unfolding map_control
map_control-address by s c e m h =
    ground (arith, lookup-insert c.endpoint e (mapping_of by s c) m, same_iff c.endpoint e)

map_controls-other :
    (by : Reporter) (s : EndpointReport) (cs : List (Option ControlEndpoint)) (e : Text)
    (m : Map AgentBmcMapping)
    → in_controls e cs ≡ false
    → lookup e (map_controls by s cs m) ≡ lookup e m
unfolding map_controls
map_controls-other by s [] e m h = refl
map_controls-other by s (c ∷ cs) e m h =
    ground
      (arith, map_controls-other by s cs e (map_control by s c m), map_control-other by s c e m)

map_servers-other :
    (by : Reporter) (ss : List EndpointReport) (e : Text) (m : Map AgentBmcMapping)
    → in_report e ss ≡ false
    → lookup e (map_servers by ss m) ≡ lookup e m
unfolding map_servers
map_servers-other by [] e m h = refl
map_servers-other by (s ∷ ss) e m h = ground (
  arith,
  map_servers-other by ss e (map_controls by s s.control_endpoints m),
  map_controls-other by s s.control_endpoints e m,
)

-- The last control endpoint of a list with the address `e` is the one that is mapped.
record MadeIn (by : Reporter) (s : EndpointReport) (cs : List (Option ControlEndpoint)) (e : Text)
    (o : Option AgentBmcMapping) : Type 0 where
  control : ControlEndpoint
  from_control : Memᴰ (some control) cs
  address : control.endpoint ≡ e
  made : o ≡ some (mapping_of by s control)

map_control-MadeIn :
    (by : Reporter) (s : EndpointReport) (c : Option ControlEndpoint)
    (cs : List (Option ControlEndpoint)) (e : Text) (m : Map AgentBmcMapping)
    → has_address e c ≡ true
    → MadeIn by s (c ∷ cs) e (lookup e (map_control by s c m))
map_control-MadeIn by s none cs e m h = cc
map_control-MadeIn by s (some c) cs e m h =
    let (found, address) = map_control-address by s c e m h in
    record { control = c; from_control = head refl; address = address; made = found }

map_controls-MadeIn :
    (by : Reporter) (s : EndpointReport) (cs : List (Option ControlEndpoint)) (e : Text)
    (m : Map AgentBmcMapping)
    → in_controls e cs ≡ true
    → MadeIn by s cs e (lookup e (map_controls by s cs m))
unfolding map_controls
map_controls-MadeIn by s [] e m h = cc
map_controls-MadeIn by s (c ∷ cs) e m h = elim (Bool-cases (in_controls e cs)) [
  | inl later ↦
      let w = map_controls-MadeIn by s cs e (map_control by s c m) later in
      record {
        control = w.control;
        from_control = tail w.from_control;
        address = w.address;
        made = w.made;
      }
  | inr last ↦
      let w = map_control-MadeIn by s c cs e m (ground arith) in
      record {
        control = w.control;
        from_control = w.from_control;
        address = w.address;
        made = map_controls-other by s cs e (map_control by s c m) last ∙ w.made;
      }
]

map_servers-MadeFrom :
    (by : Reporter) (ss : List EndpointReport) (e : Text) (m : Map AgentBmcMapping)
    → in_report e ss ≡ true
    → MadeFrom by ss e (lookup e (map_servers by ss m))
unfolding map_servers
map_servers-MadeFrom by [] e m h = cc
map_servers-MadeFrom by (s ∷ ss) e m h = elim (Bool-cases (in_report e ss)) [
  | inl later ↦
      let w = map_servers-MadeFrom by ss e (map_controls by s s.control_endpoints m) later in
      record {
        server = w.server;
        control = w.control;
        from_server = tail w.from_server;
        from_control = w.from_control;
        address = w.address;
        made = w.made;
      }
  | inr last ↦
      let w = map_controls-MadeIn by s s.control_endpoints e m (ground arith) in
      record {
        server = s;
        control = w.control;
        from_server = head refl;
        from_control = w.from_control;
        address = w.address;
        made = map_servers-other by ss e (map_controls by s s.control_endpoints m) last ∙ w.made;
      }
]

abbrev pub reporter_of : ℕ → RegisterAgentRequest → Reporter
reporter_of now req = record {
  agent_id = req.agent_id;
  datacenter_id = req.datacenter_id;
  now = now;
}

-- After a registration every address in the report is mapped to the agent that registered, as one of
-- the report's servers describes it, and every other address is mapped as before.
pub register_agent-mapping :
    (now : ℕ) (req : RegisterAgentRequest) (g : Gateway) (e : Text)
    → let after = lookup e (register_agent now req g).1.bmc_endpoint_mapping in
      ((in_report e req.bmc_endpoints ≡ true)
        × MadeFrom (reporter_of now req) req.bmc_endpoints e after)
      ⊎ ((in_report e req.bmc_endpoints ≡ false) × (after ≡ lookup e g.bmc_endpoint_mapping))
unfolding register_agent
register_agent-mapping now req g e = elim (Bool-cases (in_report e req.bmc_endpoints)) [
  | inl t ↦
      inl
        (t, map_servers-MadeFrom (reporter_of now req) req.bmc_endpoints e g.bmc_endpoint_mapping t)
  | inr f ↦
      inr (f, map_servers-other (reporter_of now req) req.bmc_endpoints e g.bmc_endpoint_mapping f)
]

-- A heartbeat of an agent that is not registered fails and changes nothing.
pub agent_heartbeat_unknown :
    (now : ℕ) (req : AgentHeartbeatRequest) (g : Gateway)
    → get req.agent_id g.agent_registry ≡ none
    → agent_heartbeat now req g ≡ (err (agent_not_found req.agent_id), g)
unfolding agent_heartbeat get update_last_seen
agent_heartbeat_unknown now req g h = ground (arith, h)

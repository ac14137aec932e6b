-- ===== src/Gateway/Reach/Preserved.antt =====
-- Every step preserves the invariant.
use conduit_bmc.Base.{
  bind-ok, ℕ, ◌+◌, ◌*◌, ◌≤◌, ◌≡◌, refl, Option, none, some, [], ok, err, Text, lookup, arith,
  Option-cases, inl, inr, ◌⊎◌, or_fail,
}
use conduit_bmc.Agents.{Info, get, register, update_last_seen}
use conduit_bmc.Gateway.{
  AgentBmcMapping, ConsoleSession, Gateway, Context, new_gateway, endpoint_not_found,
  no_auth_claims,
}
use conduit_bmc.Gateway.Access.{Validator, from_context, extract_server_context}
use conduit_bmc.Gateway.Power.{find_agent}
use conduit_bmc.Gateway.Register.{
  Reporter, RegisterAgentRequest, AgentHeartbeatRequest, register_agent, agent_heartbeat, report,
}
use conduit_bmc.Gateway.Console.{
  claims_customer, hour, CreateSessionResponse, store_session, remove_session, close_vnc_session,
  close_sol_session,
}
use conduit_bmc.Gateway.Console.Lifetime.{Kind, vnc, sol, create, create-Opened, deadline, creation}
use conduit_bmc.Gateway.Reach.{
  InOrder, Step, registers, heartbeats, creates, closes_vnc, closes_sol, removes, Reachable, starts,
  steps,
}
use conduit_bmc.Gateway.Reach.Sound.{
  IsKnown, known, GoodSession, IsSound, Holds-insert, Holds-delete, IsKnown-register,
  IsKnown-registered, IsKnown-update_last_seen, Holds-GoodMapping, Holds-GoodSession,
  map_servers-Holds,
}

register_agent-IsSound :
    (now : ℕ) (req : RegisterAgentRequest) (g : Gateway)
    → IsSound g
    → IsSound (register_agent now req g).1
unfolding register_agent
register_agent-IsSound now req g s =
    let r = g.agent_registry in
    let info : Info = record {
      id = req.agent_id;
      datacenter_id = req.datacenter_id;
      endpoint = req.endpoint;
      last_seen = now;
      status = [];
    } in
    let by : Reporter = record {
      agent_id = req.agent_id;
      datacenter_id = req.datacenter_id;
      now = now;
    } in
    let kept : (id : Text) → IsKnown r id → IsKnown (register info r) id =
      λ id. IsKnown-register info id r in
    record {
      mappings =
          map_servers-Holds (register info r) by (IsKnown-registered info r) req.bmc_endpoints
            g.bmc_endpoint_mapping
            (Holds-GoodMapping r (register info r) kept g.bmc_endpoint_mapping s.mappings);
      sessions = Holds-GoodSession r (register info r) kept g.console_sessions s.sessions;
    }

report-IsSound :
    (now : ℕ) (req : AgentHeartbeatRequest) (g : Gateway) (o : Option Info)
    → get req.agent_id g.agent_registry ≡ o
    → IsSound g
    → IsSound (report now req g o).1
unfolding report
report-IsSound now req g none e s = s
report-IsSound now req g (some agent) e s =
    let by : Reporter = record {
      agent_id = req.agent_id;
      datacenter_id = agent.datacenter_id;
      now = now;
    } in
    record {
      mappings =
          map_servers-Holds g.agent_registry by (known agent e) req.bmc_endpoints
            g.bmc_endpoint_mapping s.mappings;
      sessions = s.sessions;
    }

seen-IsSound :
    (k : Text) (t : ℕ) (g : Gateway)
    → IsSound g
    → IsSound (record g { agent_registry = update_last_seen k t g.agent_registry })
seen-IsSound k t g s =
    let r = g.agent_registry in
    let kept : (id : Text) → IsKnown r id → IsKnown (update_last_seen k t r) id =
      λ id. IsKnown-update_last_seen k t id r in
    record {
      mappings =
          Holds-GoodMapping r (update_last_seen k t r) kept g.bmc_endpoint_mapping s.mappings;
      sessions = Holds-GoodSession r (update_last_seen k t r) kept g.console_sessions s.sessions;
    }

agent_heartbeat-IsSound :
    (now : ℕ) (req : AgentHeartbeatRequest) (g : Gateway)
    → IsSound g
    → IsSound (agent_heartbeat now req g).1
unfolding agent_heartbeat
agent_heartbeat-IsSound now req g s =
    report-IsSound now req
      (record g { agent_registry = update_last_seen req.agent_id now g.agent_registry })
      (get req.agent_id (update_last_seen req.agent_id now g.agent_registry)) refl
      (seen-IsSound req.agent_id now g s)

remove_session-IsSound : (id : Text) (g : Gateway) → IsSound g → IsSound (remove_session id g)
unfolding remove_session
remove_session-IsSound id g s = record {
  mappings = s.mappings;
  sessions = Holds-delete (GoodSession g.agent_registry) id g.console_sessions s.sessions;
}

store_session-IsSound :
    (v : ConsoleSession) (g : Gateway)
    → GoodSession g.agent_registry v.session_id v
    → IsSound g
    → IsSound (store_session v g)
unfolding store_session
store_session-IsSound v g good s = record {
  mappings = s.mappings;
  sessions =
      Holds-insert (GoodSession g.agent_registry) v.session_id v g.console_sessions good s.sessions;
}

deadline-InOrder : (k : Kind) → InOrder k → deadline k ≤ creation k + 2 * hour
deadline-InOrder (vnc t u v) o = omega arith
deadline-InOrder (sol t v) o = omega arith

module _ (validate : Validator) where
  create-IsSound :
      (k : Kind) (now : ℕ) (ctx : Context) (server_id : Text) (g : Gateway)
      (response : CreateSessionResponse) (after : Gateway)
      → InOrder k
      → create validate k now ctx server_id g ≡ ok (response, after)
      → IsSound g
      → IsSound after
  create-IsSound k now ctx server_id g response after o h s =
      let w = create-Opened validate k now ctx server_id g response after h in
      let good : GoodSession g.agent_registry w.session.session_id w.session = record {
        keyed = refl;
        by_agent = rw w.by_agent (known w.agent w.registered);
        lasts = rw (w.expires, w.created) (deadline-InOrder k o);
      } in
      rw w.stored (store_session-IsSound w.session g good s)

  close_vnc_session-IsSound :
      (ctx : Context) (id : Text) (g after : Gateway)
      → close_vnc_session ctx id g ≡ ok after
      → IsSound g
      → IsSound after
  unfolding close_vnc_session
  close_vnc_session-IsSound ctx id g after h s =
      let (customer, p, h₁) = bind-ok (or_fail (claims_customer ctx.claims) no_auth_claims) _ h in
      let e : after ≡ remove_session id g = cc h₁ in rw e (remove_session-IsSound id g s)

  close_sol_session-IsSound :
      (now : ℕ) (ctx : Context) (id : Text) (g after : Gateway)
      → close_sol_session validate now ctx id g ≡ ok after
      → IsSound g
      → IsSound after
  unfolding close_sol_session
  close_sol_session-IsSound now ctx id g after h s =
      let (sc, p, h₁) =
        bind-ok (from_context validate (extract_server_context validate now ctx)) _ h in
      let e : after ≡ remove_session id g = cc h₁ in rw e (remove_session-IsSound id g s)

  Step-IsSound : {g after : Gateway} → Step validate g after → IsSound g → IsSound after
  Step-IsSound (registers now req g) s = register_agent-IsSound now req g s
  Step-IsSound (heartbeats now req g) s = agent_heartbeat-IsSound now req g s
  Step-IsSound (creates k now ctx server_id g response after o h) s =
      create-IsSound k now ctx server_id g response after o h s
  Step-IsSound (closes_vnc ctx id g after h) s = close_vnc_session-IsSound ctx id g after h s
  Step-IsSound (closes_sol now ctx id g after h) s =
      close_sol_session-IsSound now ctx id g after h s
  Step-IsSound (removes id g) s = remove_session-IsSound id g s

  -- In every state that a gateway reaches, each mapped BMC address is not empty, is the address in its
  -- mapping, and belongs to a registered agent; each session stands under its own id, belongs to a
  -- registered agent, and expires at most two hours after its creation.
  pub Reachable-IsSound :
      {external_endpoint : Text} {g : Gateway} → Reachable validate external_endpoint g → IsSound g
  unfolding new_gateway lookup
  Reachable-IsSound starts = record { mappings = λ k v e. cc e; sessions = λ k v e. cc e }
  Reachable-IsSound (steps r step) = Step-IsSound step (Reachable-IsSound r)

  -- In every state that a gateway reaches, looking for the agent of an address either fails because
  -- the address is not mapped, or finds a mapping of that address and its agent.
  pub find_agent-Reachable :
      {external_endpoint : Text} {g : Gateway} (e : Text)
      → Reachable validate external_endpoint g
      → (find_agent g e ≡ err (endpoint_not_found e))
        ⊎ ((mapping : AgentBmcMapping) × (agent : Info) × (mapping.bmc_endpoint ≡ e)
            × (find_agent g e ≡ ok (mapping, agent)))
  unfolding find_agent
  find_agent-Reachable {g = g} e r = elim (Option-cases (lookup e g.bmc_endpoint_mapping)) [
    | inl n ↦ inl (ground (arith, n))
    | inr (mapping, m) ↦
        let w = (Reachable-IsSound r).mappings e mapping m in
        elim w.by_agent [ known agent a ↦ inr (mapping, agent, w.keyed, ground (arith, m, a)) ]
  ]

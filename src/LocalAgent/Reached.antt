-- ===== src/LocalAgent/Reached.antt =====
-- From a gateway's call back to the agent's index.
use conduit_bmc.Base.{
  Bool-cases, Option-cases, All, Text, str, same, Map, lookup, insert, lookup-insert,
  lookup-insert_self, ok, ℕ, ◌≡◌, refl, sym, ap, subst, ◌∙◌, inl, inr, Bool, true, some, List, [],
  ◌∷◌, map, arith,
}
use mathlib.Core.List.{Memᴰ}
use mathlib.Core.List.Memᴰ.{head, tail}
use conduit_bmc.Types.Server.{Server, get_primary_control_endpoint}
use conduit_bmc.Types.Identity.{generate_server_id_from_bmc_endpoint}
use conduit_bmc.Types.Discovery.{DiscoveryMetadata}
use conduit_bmc.Agents.{register, get, Info}
use conduit_bmc.Gateway.{Gateway, AgentBmcMapping}
use conduit_bmc.Gateway.Register.{
  ControlEndpoint, Reporter, RegisterAgentRequest, EndpointReport, mapping_of, register_agent,
}
use conduit_bmc.Gateway.Register.Mapped.{in_report, reporter_of, register_agent-mapping}
use conduit_bmc.Gateway.Power.{AgentCall, Operation, find_agent, proxy_power_operation}
use conduit_bmc.LocalAgent.{
  LocalAgent, AgentConfig, index_servers, server_report, registration, discover_and_register,
}

abbrev Index : Type 0
Index = Map (Server DiscoveryMetadata)

-- A server with the property stands under the key.
abbrev Known : Text → (Server DiscoveryMetadata → Type 0) → Index → Type 0
Known k P m = (s : Server DiscoveryMetadata) × (lookup k m ≡ some s) × P s

module _ (P : Server DiscoveryMetadata → Type 0) where
  insert-Known :
      (k j : Text) (v : Server DiscoveryMetadata) (m : Index)
      → P v
      → Known k P m
      → Known k P (insert j v m)
  insert-Known k j v m p (s, h, q) = elim (Bool-cases (same j k)) [
    | inl t ↦ (v, ground (arith, lookup-insert j k v m, t), p)
    | inr f ↦ (s, ground (arith, lookup-insert j k v m, f, h), q)
  ]

  insert_new :
      (k : Text) (v : Server DiscoveryMetadata) (m : Index) → P v → Known k P (insert k v m)
  insert_new k v m p = (v, lookup-insert_self k v m, p)

  index_servers-Known :
      (dc k : Text) (ss : List (Server DiscoveryMetadata)) (m : Index)
      → All P ss
      → Known k P m
      → Known k P (index_servers dc ss m)
  unfolding index_servers
  index_servers-Known dc k [] m a h = h
  index_servers-Known dc k (s ∷ ss) m (p, a) h =
      elim (Option-cases (get_primary_control_endpoint s)) [
        | inl e ↦
            rw e (index_servers-Known dc k ss (insert s.id s m) a (insert-Known k s.id s m p h))
        | inr (c, e) ↦
            let own = insert-Known k s.id s m p h in
            let id = generate_server_id_from_bmc_endpoint dc c.endpoint in
            rw e (
              index_servers-Known dc k ss (insert id s (insert s.id s m)) a
                (insert-Known k id s (insert s.id s m) p own))
      ]

  index_member :
      (dc : Text) (s : Server DiscoveryMetadata) (ss : List (Server DiscoveryMetadata)) (m : Index)
      → All P ss
      → Memᴰ s ss
      → Known s.id P (index_servers dc ss m)
  unfolding index_servers
  index_member dc s [] m a i = elim i [ ]
  index_member dc s (t ∷ ss) m (p, a) (head q) =
      elim (Option-cases (get_primary_control_endpoint t)) [
        | inl e ↦
            rw (q, e) (index_servers-Known dc t.id ss (insert t.id t m) a (insert_new t.id t m p))
        | inr (c, e) ↦
            let id = generate_server_id_from_bmc_endpoint dc c.endpoint in
            rw (q, e)
              (index_servers-Known dc t.id ss (insert id t (insert t.id t m)) a
                (insert-Known t.id id t (insert t.id t m) p (insert_new t.id t m p)))
      ]
  index_member dc s (t ∷ ss) m (p, a) (tail i) =
      elim (Option-cases (get_primary_control_endpoint t)) [
        | inl e ↦ rw e (index_member dc s ss (insert t.id t m) a i)
        | inr (c, e) ↦ rw e (
            index_member dc s ss
              (insert (generate_server_id_from_bmc_endpoint dc c.endpoint) t (insert t.id t m)) a i)
      ]

All-self :
    (all ss : List (Server DiscoveryMetadata))
    → ((s : Server DiscoveryMetadata) → Memᴰ s ss → Memᴰ s all)
    → All (λ s. Memᴰ s all) ss
All-self all [] f = tt
All-self all (s ∷ ss) f = (f s (head refl), All-self all ss (λ t i. f t (tail i)))

report_member :
    (r : EndpointReport) (ss : List (Server DiscoveryMetadata))
    → Memᴰ r (map server_report ss)
    → (s : Server DiscoveryMetadata) × Memᴰ s ss × (r ≡ server_report s)
report_member r (s ∷ ss) (head q) = (s, head refl, q)
report_member r (s ∷ ss) (tail i) = let (t, j, q) = report_member r ss i in (t, tail j, q)
report_member r [] i = elim i [ ]

report_id : (s : Server DiscoveryMetadata) → (server_report s).server_id ≡ s.id
unfolding server_report
report_id s = refl

registered :
    (now : ℕ) (req : RegisterAgentRequest) (g : Gateway)
    → (info : Info) × (get req.agent_id (register_agent now req g).1.agent_registry ≡ some info)
      × (info.endpoint ≡ req.endpoint)
unfolding register_agent register get
registered now req g = (
  record {
    id = req.agent_id;
    datacenter_id = req.datacenter_id;
    endpoint = req.endpoint;
    last_seen = now;
    status = str "active";
  },
  lookup-insert_self req.agent_id _ g.agent_registry,
  refl,
)

made_by :
    (by : Reporter) (s : EndpointReport) (c : ControlEndpoint)
    → ((mapping_of by s c).agent_id ≡ by.agent_id) × ((mapping_of by s c).server_id ≡ s.server_id)
unfolding mapping_of
made_by by s c = (refl, refl)

proxied :
    (g : Gateway) (e : Text) (operation : Operation) (mapping : AgentBmcMapping) (info : Info)
    (call : AgentCall)
    → lookup e g.bmc_endpoint_mapping ≡ some mapping
    → get mapping.agent_id g.agent_registry ≡ some info
    → proxy_power_operation g e operation ≡ ok call
    → (call.agent_endpoint ≡ info.endpoint) × (call.server_id ≡ mapping.server_id)
unfolding proxy_power_operation find_agent
proxied g e operation mapping info call m r h = (ground (arith, m, r, h), ground (arith, m, r, h))

-- What a call needs of the gateway behind a registration.
forwarded :
    (now : ℕ) (config : AgentConfig) (servers : List (Server DiscoveryMetadata)) (g : Gateway)
    (e : Text) (operation : Operation) (call : AgentCall)
    → in_report e (registration config servers).bmc_endpoints ≡ true
    → proxy_power_operation (register_agent now (registration config servers) g).1 e operation
      ≡ ok call
    → (call.agent_endpoint ≡ config.endpoint)
      × (r : EndpointReport) × Memᴰ r (map server_report servers)
      × (call.server_id ≡ r.server_id)
unfolding registration
forwarded now config servers g e operation call i h =
    elim (register_agent-mapping now (registration config servers) g e) [
      | inr (f, same_as) ↦ absurd (ground (arith, i, f))
      | inl (t, made) ↦
          let req = registration config servers in
          let (info, known, at) = registered now req g in
          let (by_agent, of_server) = made_by (reporter_of now req) made.server made.control in
          let reached =
            subst (λ a. get a (register_agent now req g).1.agent_registry ≡ some info)
              (sym by_agent) known in
          let (to, named) =
            proxied (register_agent now req g).1 e operation
              (mapping_of (reporter_of now req) made.server made.control) info call made.made
              reached h in
          (to ∙ at, made.server, made.from_server, named ∙ of_server)
    ]

-- When an agent has registered, a power operation that the gateway forwards for an address of the
-- registration goes to that agent, which finds under the id in the call one of the servers that it
-- has registered, whether or not it has learnt that its registration was accepted.
pub proxy_power_operation-discover_and_register :
    (now : ℕ) (config : AgentConfig) (servers : List (Server DiscoveryMetadata)) (accepts : Bool)
    (agent : LocalAgent) (g : Gateway) (e : Text) (operation : Operation) (call : AgentCall)
    → in_report e (registration config servers).bmc_endpoints ≡ true
    → proxy_power_operation (register_agent now (registration config servers) g).1 e operation
      ≡ ok call
    → (call.agent_endpoint ≡ config.endpoint)
      × (s : Server DiscoveryMetadata) × (lookup call.server_id
            (discover_and_register config (some servers) (λ r. accepts) agent).1.discovered_servers
          ≡ some s)
      × Memᴰ s servers
unfolding discover_and_register
proxy_power_operation-discover_and_register now config servers accepts agent g e operation call i
      h =
    let (at, r, mem, named) = forwarded now config servers g e operation call i h in
    let (t, j, q) = report_member r servers mem in
    let under : call.server_id ≡ t.id = named ∙ (ap (λ r. r.server_id) q ∙ report_id t) in
    let (s, found, inside) =
      index_member (λ s. Memᴰ s servers) config.datacenter_id t servers []
        (All-self servers servers (λ s k. k)) j in
    (at, s, rw under (ground (arith, found)), inside)

-- ===== src/Gateway/Reach/Sound.antt =====
-- The invariant of the gateway's state.
use conduit_bmc.Base.{
  ℕ, ◌+◌, ◌*◌, ◌≤◌, ◌≡◌, refl, if◌then◌else◌, Bool, true, false, Option, none, some, List, [], ◌∷◌,
  Text, same, same_iff, Map, lookup, insert, delete, lookup-insert, lookup-delete, arith, is_empty,
  inl, inr, Bool-cases, same_refl, str, some,
}
use conduit_bmc.Agents.{Info, Registry, get, register, update_last_seen}
use conduit_bmc.Agents.Laws.{get-register, get-update_last_seen, seen_at}
use conduit_bmc.Gateway.{AgentBmcMapping, ConsoleSession, Gateway}
use conduit_bmc.Gateway.Register.{
  ControlEndpoint, EndpointReport, Reporter, mapping_of, map_control, map_controls, map_servers,
}
use conduit_bmc.Gateway.Console.{hour}

pub data IsKnown (r : Registry) (agent_id : Text) : Type 0 where
  known : (agent : Info) → get agent_id r ≡ some agent → IsKnown r agent_id

-- The entry of an address is for that address, which is not empty, and of a registered agent.
pub record GoodMapping (r : Registry) (e : Text) (m : AgentBmcMapping) : Type 0 where
  pub keyed : m.bmc_endpoint ≡ e
  pub not_empty : is_empty e ≡ false
  pub by_agent : IsKnown r m.agent_id

-- The entry of an id is the session with that id, of a registered agent, that lasts at most two hours.
pub record GoodSession (r : Registry) (id : Text) (s : ConsoleSession) : Type 0 where
  pub keyed : s.session_id ≡ id
  pub by_agent : IsKnown r s.agent_id
  pub lasts : s.expires_at ≤ s.created_at + 2 * hour

abbrev pub Holds : {V : Type 0} → (Text → V → Type 0) → Map V → Type 0
Holds {V} P m = (k : Text) (v : V) → lookup k m ≡ some v → P k v

pub record IsSound (g : Gateway) : Type 0 where
  pub mappings : Holds (GoodMapping g.agent_registry) g.bmc_endpoint_mapping
  pub sessions : Holds (GoodSession g.agent_registry) g.console_sessions

module _ {V : Type 0} (P : Text → V → Type 0) where
  Holds-same :
      (k j : Text) (v w : V) (m : Map V)
      → same k j ≡ true
      → lookup j (insert k v m) ≡ some w
      → P k v
      → P j w
  Holds-same k j v w m t h p =
      let q : k ≡ j = (same_iff k j).0 t in
      let r : v ≡ w = ground (arith, lookup-insert k j v m) in rw (q, r) at p

  pub Holds-insert : (k : Text) (v : V) (m : Map V) → P k v → Holds P m → Holds P (insert k v m)
  Holds-insert k v m p hs j w h = elim (Bool-cases (same k j)) [
    | inl t ↦ Holds-same k j v w m t h p
    | inr f ↦ hs j w (ground (arith, lookup-insert k j v m))
  ]

  pub Holds-delete : (k : Text) (m : Map V) → Holds P m → Holds P (delete k m)
  Holds-delete k m hs j w h = hs j w (ground (arith, lookup-delete k j m))

  Holds-unless :
      (b : Bool) (m n : Map V) → Holds P m → (b ≡ false → Holds P n) → Holds P (if b then m else n)
  Holds-unless true m n hs f = hs
  Holds-unless false m n hs f = f refl

abbrev activated : Info → Info
activated info = record info { status = str "active" }

pub IsKnown-register :
    (info : Info) (id : Text) (r : Registry) → IsKnown r id → IsKnown (register info r) id
IsKnown-register info id r (known agent e) = elim (Bool-cases (same info.id id)) [
  | inl t ↦ known (activated info) (ground (arith, get-register info id r, t))
  | inr f ↦ known agent (ground (arith, get-register info id r))
]

pub IsKnown-registered : (info : Info) (r : Registry) → IsKnown (register info r) info.id
IsKnown-registered info r =
    known (activated info) (ground (arith, get-register info info.id r, same_refl info.id))

pub IsKnown-update_last_seen :
    (k : Text) (t : ℕ) (id : Text) (r : Registry)
    → IsKnown r id
    → IsKnown (update_last_seen k t r) id
IsKnown-update_last_seen k t id r (known agent e) = elim (Bool-cases (same k id)) [
  | inl u ↦ known (seen_at t agent) (ground (arith, get-update_last_seen k id t r, u, e))
  | inr f ↦ known agent (ground (arith, get-update_last_seen k id t r))
]

-- When no agent is forgotten, the entries stay good.
module _ (r r₂ : Registry) (kept : (id : Text) → IsKnown r id → IsKnown r₂ id) where
  pub Holds-GoodMapping :
      (m : Map AgentBmcMapping) → Holds (GoodMapping r) m → Holds (GoodMapping r₂) m
  Holds-GoodMapping m hs k v e =
      let h = hs k v e in
      record { keyed = h.keyed; not_empty = h.not_empty; by_agent = kept v.agent_id h.by_agent }

  pub Holds-GoodSession :
      (m : Map ConsoleSession) → Holds (GoodSession r) m → Holds (GoodSession r₂) m
  Holds-GoodSession m hs k v e =
      let h = hs k v e in
      record { keyed = h.keyed; by_agent = kept v.agent_id h.by_agent; lasts = h.lasts }

module _ (r : Registry) (by : Reporter) (from : IsKnown r by.agent_id) where
  map_control-Holds :
      (s : EndpointReport) (c : Option ControlEndpoint) (m : Map AgentBmcMapping)
      → Holds (GoodMapping r) m
      → Holds (GoodMapping r) (map_control by s c m)
  unfolding map_control mapping_of
  map_control-Holds s none m hs = hs
  map_control-Holds s (some c) m hs =
      Holds-unless (GoodMapping r) (is_empty c.endpoint) m (insert c.endpoint (mapping_of by s c) m)
        hs
        λ e.
          Holds-insert (GoodMapping r) c.endpoint (mapping_of by s c) m
            (record { keyed = refl; not_empty = e; by_agent = from }) hs

  map_controls-Holds :
      (s : EndpointReport) (cs : List (Option ControlEndpoint)) (m : Map AgentBmcMapping)
      → Holds (GoodMapping r) m
      → Holds (GoodMapping r) (map_controls by s cs m)
  unfolding map_controls
  map_controls-Holds s [] m hs = hs
  map_controls-Holds s (c ∷ cs) m hs =
      map_controls-Holds s cs (map_control by s c m) (map_control-Holds s c m hs)

  pub map_servers-Holds :
      (ss : List EndpointReport) (m : Map AgentBmcMapping)
      → Holds (GoodMapping r) m
      → Holds (GoodMapping r) (map_servers by ss m)
  unfolding map_servers
  map_servers-Holds [] m hs = hs
  map_servers-Holds (s ∷ ss) m hs =
      map_servers-Holds ss (map_controls by s s.control_endpoints m)
        (map_controls-Holds s s.control_endpoints m hs)

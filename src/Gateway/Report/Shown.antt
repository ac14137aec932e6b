-- ===== src/Gateway/Report/Shown.antt =====
-- What the manager shows of the BMCs that a gateway has reported.
use conduit_bmc.Base.{
  Result-cases, if◌then◌else◌, Bool-cases, Text, same, same_iff, Map, lookup, ok, ℕ, ◌≡◌, refl, sym,
  ap, ◌∙◌, ◌⊎◌, inl, inr, true, some, List, [], ◌∷◌, arith,
}
use mathlib.Core.List.{Memᴰ}
use mathlib.Core.List.Memᴰ.{head, tail}
use conduit_bmc.Types.Identity.{generate_server_id_from_bmc_endpoint}
use conduit_bmc.Auth.Context.{AuthClaims}
use conduit_bmc.Gateway.{AgentBmcMapping, Gateway}
use conduit_bmc.Gateway.Register.{RegisterAgentRequest, register_agent, mapping_of}
use conduit_bmc.Gateway.Register.Mapped.{in_report, reporter_of, register_agent-mapping}
use conduit_bmc.Gateway.Report.{availability_of, endpoints_of}
use conduit_bmc.Manager.{Context}
use conduit_bmc.Manager.Sql.{Engine, IsLawful}
use conduit_bmc.Manager.Database.{BunDb}
use conduit_bmc.Manager.Messages.{convert_server}
use conduit_bmc.Manager.Servers.{get_server, get_failure}
use conduit_bmc.Manager.Database.Locations
use conduit_bmc.Manager.Report.{
  BmcEndpointAvailability, reported_server, reported_location, write_server,
  update_server_with_bmc_endpoint, report_available_endpoints,
}
use conduit_bmc.Manager.Report.Served.{id_of}
use conduit_bmc.Manager.Report.Written.{get-write_server}

entry_of : {V : Type 0} (k : Text) (v : V) (m : Map V) → lookup k m ≡ some v → Memᴰ (k, v) m
unfolding lookup
entry_of k v [] h = absurd (ground (arith, h))
entry_of k v ((j, w) ∷ m) h = elim (Bool-cases (same j k)) [
  | inl s ↦ head (ground (arith, h, s, same_iff j k))
  | inr f ↦ tail (entry_of k v m (ground (arith, h, f)))
]

module _ (e : Engine) (laws : IsLawful e) (now : ℕ) (gateway_id : Text) (ctx : Context)
    (claims : AuthClaims) (logged_in : ctx.claims ≡ some claims) (k : Text) where
  -- The answer for `k` is the server that was reported as `endpoint`.
  abbrev Shows : BmcEndpointAvailability → BunDb e → Type 0
  Shows endpoint db =
      (id_of endpoint ≡ k)
      × (get_server e ctx k db ≡ ok (convert_server (reported_server now endpoint)))

  -- Whether the server's record was written; its location may still have failed.
  writes :
      (endpoint : BmcEndpointAvailability) (db : BunDb e)
      → let after = (update_server_with_bmc_endpoint e now endpoint gateway_id db).1 in
        ((after.servers ≡ db.servers)
          × ¬ ((update_server_with_bmc_endpoint e now endpoint gateway_id db).0 ≡ ok tt))
        ⊎ (write_server e (reported_server now endpoint) db.servers ≡ ok after.servers)
  unfolding update_server_with_bmc_endpoint
  writes endpoint db =
      elim (Result-cases (write_server e (reported_server now endpoint) db.servers)) [
        | inr (f, a) ↦ inl (ground (arith, a), λ x. absurd (ground (arith, a, x)))
        | inl (servers, a) ↦
            elim (Result-cases
              (Locations.upsert e (reported_location now endpoint gateway_id) db.locations)) [
                | inr (f, b) ↦ inr (ground (arith, a, b))
                | inl (locations, b) ↦ inr (ground (arith, a, b))
              ]
      ]

  unwritten :
      (db after : BunDb e)
      → after.servers ≡ db.servers
      → get_server e ctx k after ≡ get_server e ctx k db
  unfolding get_server get_failure
  unwritten db after h = rw h refl

  written :
      (endpoint : BmcEndpointAvailability) (db after : BunDb e)
      → write_server e (reported_server now endpoint) db.servers ≡ ok after.servers
      → get_server e ctx k after ≡ (
          if same (id_of endpoint) k
          then ok (convert_server (reported_server now endpoint))
          else get_server e ctx k db)
  unfolding get_server get_failure reported_server
  written endpoint db after h = ground (
    arith,
    logged_in,
    get-write_server e laws (reported_server now endpoint) db.servers after.servers k h,
  )

  update-Shows :
      (endpoint : BmcEndpointAvailability) (db : BunDb e)
      → let after = (update_server_with_bmc_endpoint e now endpoint gateway_id db).1 in
        (get_server e ctx k after ≡ get_server e ctx k db) ⊎ Shows endpoint after
  update-Shows endpoint db =
      let after = (update_server_with_bmc_endpoint e now endpoint gateway_id db).1 in
      elim (writes endpoint db) [
        | inl (h, f) ↦ inl (unwritten db after h)
        | inr w ↦ elim (Bool-cases (same (id_of endpoint) k)) [
          | inl s ↦ inr (
            ground (arith, s, same_iff (id_of endpoint) k),
            ground (arith, s, written endpoint db after w),
          )
          | inr s ↦ inl (ground (arith, s, written endpoint db after w))
        ]
      ]

  -- A mapping of the list, as which the manager shows `k`.
  abbrev pub ShowsOne : Map AgentBmcMapping → BunDb e → Type 0
  ShowsOne m db =
      (address : Text) × (mapping : AgentBmcMapping) × Memᴰ (address, mapping) m
      × Shows (availability_of mapping) db

  later :
      (entry : Text × AgentBmcMapping) (m : Map AgentBmcMapping) (db : BunDb e)
      → ShowsOne m db
      → ShowsOne (entry ∷ m) db
  later entry m db (address, mapping, i, s) = (address, mapping, tail i, s)

  reports :
      (m : Map AgentBmcMapping) (db : BunDb e)
      → let after = report_available_endpoints e now gateway_id (endpoints_of m) db in
        (get_server e ctx k after ≡ get_server e ctx k db) ⊎ ShowsOne m after
  unfolding endpoints_of report_available_endpoints
  reports [] db = inl refl
  reports ((address, mapping) ∷ m) db =
      let next =
        (update_server_with_bmc_endpoint e now (availability_of mapping) gateway_id db).1 in
      elim (reports m next) [
        | inr s ↦ inr (later (address, mapping) m _ s)
        | inl h ↦ elim (update-Shows (availability_of mapping) db) [
          | inl g ↦ inl (h ∙ g)
          | inr (i, s) ↦ inr (address, mapping, head refl, (i, h ∙ s))
        ]
      ]

  -- Every write of the report succeeds.
  abbrev pub Written : List BmcEndpointAvailability → BunDb e → Type 0
  Written [] db = Unit {0}
  Written (endpoint ∷ endpoints) db =
      ((update_server_with_bmc_endpoint e now endpoint gateway_id db).0 ≡ ok tt)
      × Written endpoints (update_server_with_bmc_endpoint e now endpoint gateway_id db).1

  update_written :
      (endpoint : BmcEndpointAvailability) (db : BunDb e)
      → (update_server_with_bmc_endpoint e now endpoint gateway_id db).0 ≡ ok tt
      → id_of endpoint ≡ k
      → Shows endpoint (update_server_with_bmc_endpoint e now endpoint gateway_id db).1
  update_written endpoint db h i =
      let after = (update_server_with_bmc_endpoint e now endpoint gateway_id db).1 in
      elim (writes endpoint db) [
        | inl (s, f) ↦ absurd (f h)
        | inr w ↦ (i, ground (arith, i, same_iff (id_of endpoint) k, written endpoint db after w))
      ]

  reports_all :
      (address : Text) (mapping : AgentBmcMapping) (m : Map AgentBmcMapping) (db : BunDb e)
      → Written (endpoints_of m) db
      → Memᴰ (address, mapping) m
      → id_of (availability_of mapping) ≡ k
      → ShowsOne m (report_available_endpoints e now gateway_id (endpoints_of m) db)
  unfolding endpoints_of report_available_endpoints
  reports_all address mapping [] db w i same_id = elim i [ ]
  reports_all address mapping (entry ∷ m) db (w, ws) (head here) i =
      let next =
        (update_server_with_bmc_endpoint e now (availability_of entry.1) gateway_id db).1 in
      let (there, shown) =
        update_written (availability_of entry.1) db w
          (ap (λ x. id_of (availability_of x.1)) (sym here) ∙ i) in
      elim (reports m next) [
        | inr s ↦ later entry m _ s
        | inl h ↦ (entry.0, entry.1, head refl, (there, h ∙ shown))
      ]
  reports_all address mapping (entry ∷ m) db (w, ws) (tail there) i = later entry m _ (
      reports_all address mapping m
        (update_server_with_bmc_endpoint e now (availability_of entry.1) gateway_id db).1 ws there
        i)

  -- After a gateway has reported its mapping, with any of the writes failing, the manager's answer for
  -- each server id is as before, or it is the server that the gateway reported for one of its mapped
  -- addresses which has that id.
  pub report_available_endpoints-get_server :
      (g : Gateway) (db : BunDb e)
      → let after =
          report_available_endpoints e now gateway_id (endpoints_of g.bmc_endpoint_mapping) db in
        (get_server e ctx k after ≡ get_server e ctx k db) ⊎ ShowsOne g.bmc_endpoint_mapping after
  report_available_endpoints-get_server g db = reports g.bmc_endpoint_mapping db

  -- After an agent has registered at a gateway and the gateway has reported its mapping, with every
  -- write done, the manager answers for the id that is made of the agent's datacenter and an address of
  -- its registration, with the server that the gateway reported for a mapped address of that id.
  pub register_agent-get_server :
      (time : ℕ) (req : RegisterAgentRequest) (g : Gateway) (address : Text) (db : BunDb e)
      → in_report address req.bmc_endpoints ≡ true
      → generate_server_id_from_bmc_endpoint req.datacenter_id address ≡ k
      → Written (endpoints_of (register_agent time req g).1.bmc_endpoint_mapping) db
      → ShowsOne (register_agent time req g).1.bmc_endpoint_mapping (
          report_available_endpoints e now gateway_id
            (endpoints_of (register_agent time req g).1.bmc_endpoint_mapping)
            db)
  unfolding availability_of mapping_of
  register_agent-get_server time req g address db i same_id w =
      let m = (register_agent time req g).1.bmc_endpoint_mapping in
      elim (register_agent-mapping time req g address) [
        | inr (f, other) ↦ absurd (ground (arith, i, f))
        | inl (t, from) ↦
            let mapping = mapping_of (reporter_of time req) from.server from.control in
            reports_all address mapping m db w (entry_of address mapping m from.made) (
              ap (λ a. generate_server_id_from_bmc_endpoint req.datacenter_id a) from.address
              ∙ same_id)
      ]

-- ===== src/Manager/Report/Served.antt =====
-- What clients see of a server that a gateway has reported.
use conduit_bmc.Base.{Result-cases, if◌then◌else◌, Text, same, ok, ℕ, ◌≡◌, inl, inr, some, arith}
use conduit_bmc.Types.Identity.{generate_server_id_from_bmc_endpoint}
use conduit_bmc.Auth.Context.{AuthClaims}
use conduit_bmc.Manager.{Context}
use conduit_bmc.Manager.Sql.{Engine, IsLawful}
use conduit_bmc.Manager.Models.{RegionalGateway}
use conduit_bmc.Manager.Database.{BunDb}
use conduit_bmc.Manager.Database.Servers.{ServerRow}
use conduit_bmc.Manager.Database.Locations
use conduit_bmc.Manager.Database.Locations.{ServerLocationRow}
use conduit_bmc.Manager.Database.Gateways
use conduit_bmc.Manager.Messages.{convert_server, convert_bmc_type_to_proto}
use conduit_bmc.Manager.Servers.{
  bmc_type_or_ipmi, get_failure, get_server, get_server_location, LocationResponse,
}
use conduit_bmc.Manager.Report.{
  BmcEndpointAvailability, reported_server, reported_location, write_server,
  update_server_with_bmc_endpoint,
}
use conduit_bmc.Manager.Report.Written.{get-write_server, get-upsert}

abbrev pub id_of : BmcEndpointAvailability → Text
id_of endpoint = generate_server_id_from_bmc_endpoint endpoint.datacenter_id endpoint.bmc_endpoint

-- Where a reported server is, once its gateway is known.
abbrev pub location_response : BmcEndpointAvailability → RegionalGateway → LocationResponse
location_response endpoint gateway = record {
  regional_gateway_id = gateway.id;
  regional_gateway_endpoint = gateway.endpoint;
  datacenter_id = endpoint.datacenter_id;
  primary_protocol = convert_bmc_type_to_proto (bmc_type_or_ipmi endpoint.bmc_type);
  features = endpoint.features;
}

module _ (e : Engine) (laws : IsLawful e) where
  -- What the two writes have done.
  abbrev Wrote : ℕ → BmcEndpointAvailability → Text → BunDb e → BunDb e → Type 0
  Wrote now endpoint gateway_id db after =
      (servers : e.Table ServerRow) × (locations : e.Table ServerLocationRow) × (write_server e
          (reported_server now endpoint) db.servers
        ≡ ok servers)
      × (Locations.upsert e (reported_location now endpoint gateway_id) db.locations ≡ ok locations)
      × (after ≡ record db { servers = servers; locations = locations })

  wrote :
      (now : ℕ) (endpoint : BmcEndpointAvailability) (gateway_id : Text) (db after : BunDb e)
      → update_server_with_bmc_endpoint e now endpoint gateway_id db ≡ (ok tt, after)
      → Wrote now endpoint gateway_id db after
  unfolding update_server_with_bmc_endpoint
  wrote now endpoint gateway_id db after h =
      elim (Result-cases (write_server e (reported_server now endpoint) db.servers)) [
        | inr (f, a) ↦ absurd (ground (arith, a, h))
        | inl (servers, a) ↦
            elim (Result-cases
              (Locations.upsert e (reported_location now endpoint gateway_id) db.locations)) [
                | inr (f, b) ↦ absurd (ground (arith, a, b, h))
                | inl (locations, b) ↦ (servers, locations, a, b, ground (arith, a, b, h))
              ]
      ]

  server_served :
      (now : ℕ) (endpoint : BmcEndpointAvailability) (db : BunDb e) (servers : e.Table ServerRow)
      (locations : e.Table ServerLocationRow) (ctx : Context) (claims : AuthClaims) (k : Text)
      → ctx.claims ≡ some claims
      → write_server e (reported_server now endpoint) db.servers ≡ ok servers
      → get_server e ctx k (record db { servers = servers; locations = locations }) ≡ (
          if same (id_of endpoint) k
          then ok (convert_server (reported_server now endpoint))
          else get_server e ctx k db)
  unfolding get_server get_failure reported_server
  server_served now endpoint db servers locations ctx claims k c w =
      ground
        (arith, c, get-write_server e laws (reported_server now endpoint) db.servers servers k w)

  location_served :
      (now : ℕ) (endpoint : BmcEndpointAvailability) (gateway_id : Text) (gateway : RegionalGateway)
      (db : BunDb e) (servers : e.Table ServerRow) (locations : e.Table ServerLocationRow)
      (ctx : Context) (claims : AuthClaims) (k : Text)
      → ctx.claims ≡ some claims
      → Gateways.get e gateway_id db.gateways ≡ ok gateway
      → Locations.upsert e (reported_location now endpoint gateway_id) db.locations ≡ ok locations
      → get_server_location e ctx k (record db { servers = servers; locations = locations }) ≡ (
          if same (id_of endpoint) k
          then ok (location_response endpoint gateway)
          else get_server_location e ctx k db)
  unfolding get_server_location reported_location
  location_served now endpoint gateway_id gateway db servers locations ctx claims k c g w = ground (
    arith,
    c,
    g,
    get-upsert e laws (reported_location now endpoint gateway_id) db.locations locations k w,
  )

  -- Once a gateway's report of a BMC has been written, the server id that is made of the BMC's address
  -- is answered with the server that was reported, at the gateway that reported it, if that is
  -- registered; every other server is answered as before.
  pub update_server-get_server :
      (now : ℕ) (endpoint : BmcEndpointAvailability) (gateway_id : Text) (gateway : RegionalGateway)
      (db after : BunDb e) (ctx : Context) (claims : AuthClaims) (k : Text)
      → update_server_with_bmc_endpoint e now endpoint gateway_id db ≡ (ok tt, after)
      → Gateways.get e gateway_id db.gateways ≡ ok gateway
      → ctx.claims ≡ some claims
      → (get_server e ctx k after ≡ (
          if same (id_of endpoint) k
          then ok (convert_server (reported_server now endpoint))
          else get_server e ctx k db))
        × (get_server_location e ctx k after ≡ (
            if same (id_of endpoint) k
            then ok (location_response endpoint gateway)
            else get_server_location e ctx k db))
  update_server-get_server now endpoint gateway_id gateway db after ctx claims k h g c =
      let (servers, locations, a, b, made) = wrote now endpoint gateway_id db after h in
      rw made (
        server_served now endpoint db servers locations ctx claims k c a,
        location_served now endpoint gateway_id gateway db servers locations ctx claims k c g b,
      )

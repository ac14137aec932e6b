-- ===== src/Manager/Servers/Retried.antt =====
-- A registration that fails half-way.
use conduit_bmc.Base.{
  Result-cases, bind-ok, Text, same_refl, ok, err, or_fail, ℕ, ◌≡◌, refl, sym, subst, ◌∙◌, ◌≢◌, inl,
  inr, some, none, List, [], ◌∷◌, arith, Option-cases,
}
use conduit_bmc.Types.Server.{Server}
use conduit_bmc.Types.Discovery.{DiscoveryMetadata}
use conduit_bmc.Types.Endpoints.{BmcControlEndpoint}
use conduit_bmc.Manager.Messages.{ProtoControlEndpoint}
use conduit_bmc.Manager.{
  invalid_bmc_type, customer_not_authenticated, Context, Failure, create_server_failed,
  register_location_failed,
}
use conduit_bmc.Manager.Sql.{Engine, IsLawful, database_error}
use conduit_bmc.Manager.Models.{ServerLocation}
use conduit_bmc.Manager.Database.{BunDb}
use conduit_bmc.Manager.Database.Servers
use conduit_bmc.Manager.Database.Servers.{ServerRow, from_model}
use conduit_bmc.Manager.Report.Written.{found_row}
use conduit_bmc.Manager.Servers.{
  RegisterServerRequest, bmc_type_of, control_endpoints_of, server_of, create_record,
  register_server,
}

module _ (e : Engine) (laws : IsLawful e) where
  inserted :
      (s : Server DiscoveryMetadata) (t after : e.Table ServerRow)
      → Servers.create e s t ≡ ok after
      → e.find (λ r. r.id) s.id after ≡ ok (from_model s)
  unfolding Servers.create from_model
  inserted s t after h =
      ground (arith, laws.find-insert (λ r. r.id) (from_model s) t after s.id, same_refl s.id, h)

  refused :
      (s u : Server DiscoveryMetadata) (t : e.Table ServerRow) (r : ServerRow)
      → s.id ≡ u.id
      → e.find (λ r. r.id) s.id t ≡ ok r
      → Servers.create e u t ≡ err database_error
  unfolding Servers.create from_model
  refused s u t r h f =
      let g : e.find (λ r. r.id) u.id t ≡ ok r = subst (λ k. e.find (λ r. r.id) k t ≡ ok r) h f in
      rw (laws.insert_duplicate (λ r. r.id) (from_model u) r t g) refl

  endpoints_failed :
      (ps : List ProtoControlEndpoint) (f : Failure)
      → control_endpoints_of ps ≡ err f
      → f ≡ invalid_bmc_type
  unfolding control_endpoints_of bmc_type_of
  endpoints_failed [] f h = cc
  endpoints_failed (p ∷ ps) f h = ground (arith, endpoints_failed ps f)

  -- What a record that was created has been made of.
  abbrev Created : RegisterServerRequest → BunDb e → e.Table ServerRow → Type 0
  Created request db servers =
      (s : Server DiscoveryMetadata) × (es : List BmcControlEndpoint) × (s.id ≡ request.server_id)
      × (control_endpoints_of request.bmc_protocols ≡ ok es)
      × (Servers.create e s db.servers ≡ ok servers)

  created :
      (now : ℕ) (ctx : Context) (request : RegisterServerRequest) (db : BunDb e)
      (servers : e.Table ServerRow) (location : ServerLocation)
      → create_record e now ctx request db ≡ ok (servers, location)
      → Created request db servers
  unfolding create_record server_of
  created now ctx request db servers location h =
      let (who, _, a) = bind-ok (or_fail ctx.customer_id customer_not_authenticated) _ h in
      let (es, p, b) = bind-ok (control_endpoints_of request.bmc_protocols) _ a in
      let s = server_of now who request es in
      let own : s.id ≡ request.server_id = refl in (s, es, own, p, ground (arith, b))

  not_created :
      (now : ℕ) (ctx : Context) (request : RegisterServerRequest) (db : BunDb e) (f : Failure)
      → create_record e now ctx request db ≡ err f
      → f ≢ register_location_failed
  unfolding create_record
  not_created now ctx request db f h =
      ground (arith, endpoints_failed request.bmc_protocols register_location_failed)

  half_way :
      (now : ℕ) (ctx : Context) (request : RegisterServerRequest) (db after : BunDb e)
      → register_server e now ctx request db ≡ (err register_location_failed, after)
      → (servers : e.Table ServerRow) × (after ≡ record db { servers = servers })
        × Created request db servers
  unfolding register_server
  half_way now ctx request db after h = elim (Result-cases (create_record e now ctx request db)) [
    | inl ((servers, location), a) ↦
        (servers, ground (arith, a, h), created now ctx request db servers location a)
    | inr (f, a) ↦ absurd (not_created now ctx request db f a (ground (arith, a, h)))
  ]

  own_id :
      (now : ℕ) (customer_id : Text) (request : RegisterServerRequest)
      (es : List BmcControlEndpoint)
      → (server_of now customer_id request es).id ≡ request.server_id
  unfolding server_of
  own_id now customer_id request es = refl

  -- Why an attempt fails when the server's record is in the way: the first of its checks that fails.
  abbrev pub refusal : Context → RegisterServerRequest → Failure
  refusal ctx request = elim ctx.customer_id [
    | none ↦ customer_not_authenticated
    | some customer_id ↦ elim (control_endpoints_of request.bmc_protocols) [
      | err f ↦ f
      | ok es ↦ create_server_failed
    ]
  ]

  again :
      (now : ℕ) (ctx : Context) (request : RegisterServerRequest) (db : BunDb e)
      → ((customer_id : Text) (es : List BmcControlEndpoint)
          → Servers.create e (server_of now customer_id request es) db.servers ≡ err database_error)
      → register_server e now ctx request db ≡ (err (refusal ctx request), db)
  unfolding register_server create_record
  again now ctx request db f = elim (Option-cases ctx.customer_id) [
    | inl c ↦ ground (arith, c)
    | inr (customer_id, c) ↦ elim (Result-cases (control_endpoints_of request.bmc_protocols)) [
      | inr (g, p) ↦ ground (arith, c, p)
      | inl (es, p) ↦ ground (arith, c, p, f customer_id es)
    ]
  ]

  left_record :
      (s : Server DiscoveryMetadata) (t after : e.Table ServerRow)
      → Servers.create e s t ≡ ok after
      → (u : Server DiscoveryMetadata) × (Servers.get e s.id after ≡ ok u)
  unfolding Servers.get
  left_record s t after h = (Servers.to_model (from_model s), rw (inserted s t after h) refl)

  -- When the location of a server that is registered could not be written, the server's record stays,
  -- and as long as look-ups of its id find that record, every attempt to register a server with the id
  -- fails and changes nothing, whoever makes it and whatever it contains: it fails at its check of the
  -- customer or of the BMC types, or because the record is in the way.
  pub register_server_retry :
      (now : ℕ) (ctx : Context) (request : RegisterServerRequest) (db after : BunDb e) (later : ℕ)
      (ctx₂ : Context) (request₂ : RegisterServerRequest) (db₂ : BunDb e)
      → register_server e now ctx request db ≡ (err register_location_failed, after)
      → Servers.get e request.server_id db₂.servers ≡ Servers.get e request.server_id after.servers
      → request₂.server_id ≡ request.server_id
      → (s : Server DiscoveryMetadata) × (Servers.get e request.server_id after.servers ≡ ok s)
        × (register_server e later ctx₂ request₂ db₂ ≡ (err (refusal ctx₂ request₂), db₂))
  register_server_retry now ctx request db after later ctx₂ request₂ db₂ h kept i =
      let (servers, left, (s, es, own, read, made)) = half_way now ctx request db after h in
      let (u, there) = left_record s db.servers servers made in
      let found : Servers.get e request.server_id after.servers ≡ ok u =
        subst (λ d. Servers.get e request.server_id d.servers ≡ ok u) (sym left)
          (subst (λ k. Servers.get e k servers ≡ ok u) own there) in
      let (r, row) = found_row e laws request.server_id db₂.servers u (kept ∙ found) in
      (
        u,
        found,
        again later ctx₂ request₂ db₂ (λ customer_id es.
            refused (record s { id = request.server_id }) (server_of later customer_id request₂ es)
              db₂.servers r (sym (own_id later customer_id request₂ es ∙ i)) row),
      )

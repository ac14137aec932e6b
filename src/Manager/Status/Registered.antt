-- ===== src/Manager/Status/Registered.antt =====
-- A gateway that registers, for the first time or again.
use conduit_bmc.Base.{
  Result-cases, if◌then◌else◌, Text, same, same_iff, Result, ok, err, ℕ, ◌≡◌, refl, inl, inr, arith,
}
use conduit_bmc.Manager.Sql.{Engine, IsLawful, Fault, no_rows, sql_failed}
use conduit_bmc.Manager.Models.{RegionalGateway}
use conduit_bmc.Manager.Database.{BunDb}
use conduit_bmc.Manager.Database.Gateways
use conduit_bmc.Manager.Database.Gateways.{RegionalGatewayRow}
use conduit_bmc.Manager.Report.Written.{repository-ok}
use conduit_bmc.Manager.Status.{RegisterGatewayRequest, gateway_of, register_gateway}

-- When the gateway under an id was created, `now` if there is none.
abbrev pub creation : ℕ → Result Fault RegionalGateway → ℕ
creation now (ok g) = g.created_at
creation now (err f) = now

module _ (e : Engine) (laws : IsLawful e) where
  get-upsert :
      (g : RegionalGateway) (t after : e.Table RegionalGatewayRow) (k : Text)
      → Gateways.upsert e g t ≡ ok after
      → Gateways.get e k after ≡ (
          if same g.id k
          then ok (record g { created_at = creation g.created_at (Gateways.get e k t) })
          else Gateways.get e k t)
  unfolding Gateways.upsert Gateways.get Gateways.to_model Gateways.from_model
  get-upsert g t after k h =
      let written =
        laws.find-upsert (λ r. r.id)
          (λ old new. record new { id = old.id; created_at = old.created_at })
          (Gateways.from_model g) t after k (λ old new. refl) (repository-ok _ h) in
      elim (Result-cases (e.find (λ r. r.id) k t)) [
        | inl (old, f) ↦
            ground (arith, written, f, laws.find_key (λ r. r.id) k t old f, same_iff g.id k)
        | inr (no_rows, f) ↦ ground (arith, written, f)
        | inr (sql_failed, f) ↦ ground (arith, written, f)
      ]

  -- After `RegisterGateway` the gateway is found as it has registered, active and seen just now, with
  -- the time at which it was first created; all other gateways are found as before.
  pub register_gateway-get :
      (now : ℕ) (request : RegisterGatewayRequest) (message : Text) (db after : BunDb e) (k : Text)
      → register_gateway e now request db ≡ (ok message, after)
      → Gateways.get e k after.gateways ≡ (
          if same request.gateway_id k
          then ok (record (gateway_of now request) {
            created_at = creation now (Gateways.get e k db.gateways);
          })
          else Gateways.get e k db.gateways)
  unfolding register_gateway gateway_of
  register_gateway-get now request message db after k h =
      elim (Result-cases (Gateways.upsert e (gateway_of now request) db.gateways)) [
        | inl (gateways, u) ↦
            let made : after ≡ record db { gateways = gateways } = ground (arith, u, h) in
            rw made (get-upsert (gateway_of now request) db.gateways gateways k u)
        | inr (f, u) ↦ absurd (ground (arith, u, h))
      ]

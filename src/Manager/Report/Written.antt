-- ===== src/Manager/Report/Written.antt =====
-- What look-ups find behind the writes of a report.
use conduit_bmc.Base.{
  Result-cases, if◌then◌else◌, Text, same, same_iff, Result, ok, err, ◌≡◌, refl, inl, inr, arith,
}
use conduit_bmc.Types.Server.{Server}
use conduit_bmc.Types.Discovery.{DiscoveryMetadata}
use conduit_bmc.Manager.Sql.{
  Engine, IsLawful, SqlError, repository_error, no_rows, sql_failed, not_found, database_error,
}
use conduit_bmc.Manager.Models.{ServerLocation}
use conduit_bmc.Manager.Database.Servers
use conduit_bmc.Manager.Database.Servers.{ServerRow}
use conduit_bmc.Manager.Database.Locations
use conduit_bmc.Manager.Database.Locations.{ServerLocationRow}
use conduit_bmc.Manager.Report.{write_server}

pub repository-ok {ℓ} :
    {A : Type ℓ} (r : Result SqlError A) {a : A} → repository_error r ≡ ok a → r ≡ ok a
repository-ok (ok a) h = ground arith
repository-ok (err no_rows) h = cc
repository-ok (err sql_failed) h = cc

module _ (e : Engine) (laws : IsLawful e) where
  pub found_row :
      (k : Text) (t : e.Table ServerRow) (s : Server DiscoveryMetadata)
      → Servers.get e k t ≡ ok s
      → (r : ServerRow) × (e.find (λ r. r.id) k t ≡ ok r)
  unfolding Servers.get
  found_row k t s h = elim (Result-cases (e.find (λ r. r.id) k t)) [
    | inl (r, f) ↦ (r, f)
    | inr (no_rows, f) ↦ absurd (ground (arith, f, h))
    | inr (sql_failed, f) ↦ absurd (ground (arith, f, h))
  ]

  get-create :
      (s : Server DiscoveryMetadata) (t after : e.Table ServerRow) (k : Text)
      → Servers.create e s t ≡ ok after
      → Servers.get e k after ≡ (if same s.id k then ok s else Servers.get e k t)
  unfolding Servers.create Servers.get Servers.to_model Servers.from_model
  get-create s t after k h =
      let written =
        laws.find-insert (λ r. r.id) (Servers.from_model s) t after k (repository-ok _ h) in
      ground (arith, written)

  get-update :
      (s old : Server DiscoveryMetadata) (t after : e.Table ServerRow) (k : Text)
      → Servers.get e s.id t ≡ ok old
      → Servers.update e s t ≡ ok after
      → Servers.get e k after ≡ (if same s.id k then ok s else Servers.get e k t)
  unfolding Servers.update Servers.get Servers.to_model Servers.from_model
  get-update s old t after k g h =
      let (r, f) = found_row s.id t old g in
      let written =
        laws.find-update (λ r. r.id) (Servers.from_model s) r t after k f (repository-ok _ h) in
      ground (arith, written)

  pub get-write_server :
      (s : Server DiscoveryMetadata) (t after : e.Table ServerRow) (k : Text)
      → write_server e s t ≡ ok after
      → Servers.get e k after ≡ (if same s.id k then ok s else Servers.get e k t)
  unfolding write_server
  get-write_server s t after k h = elim (Result-cases (Servers.get e s.id t)) [
    | inl (old, g) ↦ get-update s old t after k g (ground (arith, g, h))
    | inr (not_found, g) ↦ get-create s t after k (ground (arith, g, h))
    | inr (database_error, g) ↦ absurd (ground (arith, g, h))
  ]

  pub get-upsert :
      (l : ServerLocation) (t after : e.Table ServerLocationRow) (k : Text)
      → Locations.upsert e l t ≡ ok after
      → Locations.get e k after ≡ (if same l.server_id k then ok l else Locations.get e k t)
  unfolding Locations.upsert Locations.get Locations.to_model Locations.from_model
  get-upsert l t after k h =
      let written =
        laws.find-upsert (λ r. r.server_id) (λ old new. record new { server_id = old.server_id })
          (Locations.from_model l) t after k (λ old new. refl) (repository-ok _ h) in
      elim (Result-cases (e.find (λ r. r.server_id) k t)) [
        | inl (old, f) ↦
            ground (
              arith,
              written,
              f,
              laws.find_key (λ r. r.server_id) k t old f,
              same_iff l.server_id k,
            )
        | inr (x, f) ↦ ground (arith, written, f)
      ]

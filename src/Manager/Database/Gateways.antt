-- ===== src/Manager/Database/Gateways.antt =====
-- manager/internal/database: the RegionalGateway of models.go, its conversions, and its repository in
-- repositories.go, over the table that it is given.
use conduit_bmc.Base.{Text, Result, ok, ◌>>=◌, ℕ, true, List, map}
use conduit_bmc.Manager.Models.{RegionalGateway}
use conduit_bmc.Manager.Sql.{Engine, Fault, repository_error}

pub record RegionalGatewayRow : Type 0 where
  pub id : Text
  pub region : Text
  pub endpoint : Text
  pub datacenter_ids : List Text
  pub status : Text
  pub last_seen : ℕ
  pub created_at : ℕ

unfoldable pub to_model : RegionalGatewayRow → RegionalGateway
to_model r = record {
  id = r.id;
  region = r.region;
  endpoint = r.endpoint;
  datacenter_ids = r.datacenter_ids;
  status = r.status;
  last_seen = r.last_seen;
  created_at = r.created_at;
}

unfoldable pub from_model : RegionalGateway → RegionalGatewayRow
from_model m = record {
  id = m.id;
  region = m.region;
  endpoint = m.endpoint;
  datacenter_ids = m.datacenter_ids;
  status = m.status;
  last_seen = m.last_seen;
  created_at = m.created_at;
}

module _ (e : Engine) where
  unfoldable pub get : Text → e.Table RegionalGatewayRow → Result Fault RegionalGateway
  unfolding to_model
  get id t = repository_error (e.find (λ r. r.id) id t) >>= λ r. ok (to_model r)

  unfoldable pub list : e.Table RegionalGatewayRow → Result Fault (List RegionalGateway)
  unfolding to_model
  list t =
      repository_error (e.select (λ r. true) (λ r. r.created_at) t) >>= λ rs. ok (map to_model rs)

  unfoldable pub create :
      RegionalGateway → e.Table RegionalGatewayRow → Result Fault (e.Table RegionalGatewayRow)
  unfolding from_model
  create m t = repository_error (e.insert (λ r. r.id) (from_model m) t)

  unfoldable pub update :
      RegionalGateway → e.Table RegionalGatewayRow → Result Fault (e.Table RegionalGatewayRow)
  unfolding from_model
  update m t = repository_error (e.update (λ r. r.id) (from_model m) t)

  -- The columns that are set on a conflict: all but the id and the time of creation.
  unfoldable pub upsert :
      RegionalGateway → e.Table RegionalGatewayRow → Result Fault (e.Table RegionalGatewayRow)
  unfolding from_model
  upsert m t = repository_error (
      e.upsert (λ r. r.id) (λ old new. record new { id = old.id; created_at = old.created_at })
        (from_model m) t)

  unfoldable pub delete :
      Text → e.Table RegionalGatewayRow → Result Fault (e.Table RegionalGatewayRow)
  delete id t = repository_error (e.delete (λ r. r.id) id t)

-- ===== src/Manager/Database/Locations.antt =====
-- manager/internal/database: the ServerLocation of models.go, its conversions, and its repository in
-- repositories.go, over the table that it is given.
use conduit_bmc.Base.{Text, Result, ok, ◌>>=◌, ℕ, true, List, map}
use conduit_bmc.Types.Endpoints.{BmcControlEndpoint}
use conduit_bmc.Manager.Models.{ServerLocation}
use conduit_bmc.Manager.Sql.{Engine, Fault, repository_error}

pub record ServerLocationRow : Type 0 where
  pub server_id : Text
  pub customer_id : Text
  pub datacenter_id : Text
  pub regional_gateway_id : Text
  pub control_endpoints : List BmcControlEndpoint
  pub primary_protocol : Text
  pub features : List Text
  pub created_at : ℕ
  pub updated_at : ℕ

unfoldable pub to_model : ServerLocationRow → ServerLocation
to_model r = record {
  server_id = r.server_id;
  customer_id = r.customer_id;
  datacenter_id = r.datacenter_id;
  regional_gateway_id = r.regional_gateway_id;
  control_endpoints = r.control_endpoints;
  primary_protocol = r.primary_protocol;
  features = r.features;
  created_at = r.created_at;
  updated_at = r.updated_at;
}

unfoldable pub from_model : ServerLocation → ServerLocationRow
from_model m = record {
  server_id = m.server_id;
  customer_id = m.customer_id;
  datacenter_id = m.datacenter_id;
  regional_gateway_id = m.regional_gateway_id;
  control_endpoints = m.control_endpoints;
  primary_protocol = m.primary_protocol;
  features = m.features;
  created_at = m.created_at;
  updated_at = m.updated_at;
}

module _ (e : Engine) where
  unfoldable pub get : Text → e.Table ServerLocationRow → Result Fault ServerLocation
  unfolding to_model
  get server_id t =
      repository_error (e.find (λ r. r.server_id) server_id t) >>= λ r. ok (to_model r)

  unfoldable pub list : e.Table ServerLocationRow → Result Fault (List ServerLocation)
  unfolding to_model
  list t =
      repository_error (e.select (λ r. true) (λ r. r.created_at) t) >>= λ rs. ok (map to_model rs)

  unfoldable pub create :
      ServerLocation → e.Table ServerLocationRow → Result Fault (e.Table ServerLocationRow)
  unfolding from_model
  create m t = repository_error (e.insert (λ r. r.server_id) (from_model m) t)

  unfoldable pub update :
      ServerLocation → e.Table ServerLocationRow → Result Fault (e.Table ServerLocationRow)
  unfolding from_model
  update m t = repository_error (e.update (λ r. r.server_id) (from_model m) t)

  -- On a conflict, without a list of columns, all but the primary key are set.
  unfoldable pub upsert :
      ServerLocation → e.Table ServerLocationRow → Result Fault (e.Table ServerLocationRow)
  unfolding from_model
  upsert m t = repository_error (
      e.upsert (λ r. r.server_id) (λ old new. record new { server_id = old.server_id })
        (from_model m) t)

  unfoldable pub delete :
      Text → e.Table ServerLocationRow → Result Fault (e.Table ServerLocationRow)
  delete server_id t = repository_error (e.delete (λ r. r.server_id) server_id t)

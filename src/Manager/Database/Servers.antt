-- ===== src/Manager/Database/Servers.antt =====
-- manager/internal/database: the Server of models.go, its conversions, and its repository in
-- repositories.go, over the table that it is given.
use conduit_bmc.Base.{Text, same, Map, Result, ok, ◌>>=◌, ℕ, true, Option, List, map}
use conduit_bmc.Types.Endpoints.{BmcControlEndpoint, SolEndpoint, VncEndpoint}
use conduit_bmc.Types.Discovery.{DiscoveryMetadata}
use conduit_bmc.Types.Server.{Server}
use conduit_bmc.Manager.Sql.{Engine, Fault, repository_error}

pub record ServerRow : Type 0 where
  pub id : Text
  pub customer_id : Text
  pub datacenter_id : Text
  pub control_endpoints : List BmcControlEndpoint
  pub primary_protocol : Text
  pub features : List Text
  pub status : Text
  pub sol_endpoint : Option SolEndpoint
  pub vnc_endpoint : Option VncEndpoint
  pub metadata : Map Text
  pub discovery_metadata : Option DiscoveryMetadata
  pub created_at : ℕ
  pub updated_at : ℕ

unfoldable pub to_model : ServerRow → Server DiscoveryMetadata
to_model r = record {
  id = r.id;
  customer_id = r.customer_id;
  datacenter_id = r.datacenter_id;
  control_endpoints = r.control_endpoints;
  primary_protocol = r.primary_protocol;
  features = r.features;
  status = r.status;
  sol_endpoint = r.sol_endpoint;
  vnc_endpoint = r.vnc_endpoint;
  metadata = r.metadata;
  discovery_metadata = r.discovery_metadata;
  created_at = r.created_at;
  updated_at = r.updated_at;
}

unfoldable pub from_model : Server DiscoveryMetadata → ServerRow
from_model m = record {
  id = m.id;
  customer_id = m.customer_id;
  datacenter_id = m.datacenter_id;
  control_endpoints = m.control_endpoints;
  primary_protocol = m.primary_protocol;
  features = m.features;
  status = m.status;
  sol_endpoint = m.sol_endpoint;
  vnc_endpoint = m.vnc_endpoint;
  metadata = m.metadata;
  discovery_metadata = m.discovery_metadata;
  created_at = m.created_at;
  updated_at = m.updated_at;
}

module _ (e : Engine) where
  unfoldable pub get : Text → e.Table ServerRow → Result Fault (Server DiscoveryMetadata)
  unfolding to_model
  get id t = repository_error (e.find (λ r. r.id) id t) >>= λ r. ok (to_model r)

  unfoldable pub list : Text → e.Table ServerRow → Result Fault (List (Server DiscoveryMetadata))
  unfolding to_model
  list customer_id t =
      repository_error (e.select (λ r. same r.customer_id customer_id) (λ r. r.created_at) t)
      >>= λ rs. ok (map to_model rs)

  unfoldable pub list_all : e.Table ServerRow → Result Fault (List (Server DiscoveryMetadata))
  unfolding to_model
  list_all t =
      repository_error (e.select (λ r. true) (λ r. r.created_at) t) >>= λ rs. ok (map to_model rs)

  unfoldable pub create :
      Server DiscoveryMetadata → e.Table ServerRow → Result Fault (e.Table ServerRow)
  unfolding from_model
  create m t = repository_error (e.insert (λ r. r.id) (from_model m) t)

  unfoldable pub update :
      Server DiscoveryMetadata → e.Table ServerRow → Result Fault (e.Table ServerRow)
  unfolding from_model
  update m t = repository_error (e.update (λ r. r.id) (from_model m) t)

  unfoldable pub delete : Text → e.Table ServerRow → Result Fault (e.Table ServerRow)
  delete id t = repository_error (e.delete (λ r. r.id) id t)

-- ===== src/Manager/Models.antt =====
-- manager/pkg/models/models.go: what the manager stores.
use conduit_bmc.Base.{Text, ℕ, List}
use conduit_bmc.Types.Endpoints.{BmcControlEndpoint}

pub record Agent : Type 0 where
  pub id : Text
  pub datacenter_id : Text
  pub endpoint : Text
  pub status : Text
  pub last_seen : ℕ
  pub created_at : ℕ

pub record ProxySession : Type 0 where
  pub id : Text
  pub customer_id : Text
  pub server_id : Text
  pub agent_id : Text
  pub status : Text
  pub created_at : ℕ
  pub expires_at : ℕ

pub record RegionalGateway : Type 0 where
  pub id : Text
  pub region : Text
  pub endpoint : Text
  pub datacenter_ids : List Text
  pub status : Text
  pub last_seen : ℕ
  pub created_at : ℕ

pub record ServerLocation : Type 0 where
  pub server_id : Text
  pub customer_id : Text
  pub datacenter_id : Text
  pub regional_gateway_id : Text
  pub control_endpoints : List BmcControlEndpoint
  pub primary_protocol : Text
  pub features : List Text
  pub created_at : ℕ
  pub updated_at : ℕ

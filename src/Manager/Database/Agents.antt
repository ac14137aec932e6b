-- ===== src/Manager/Database/Agents.antt =====
-- manager/internal/database: the Agent of models.go, its conversions, and its repository in
-- repositories.go, over the table that it is given.
use conduit_bmc.Base.{Text, Result, ok, ◌>>=◌, ℕ, true, List, map}
use conduit_bmc.Manager.Models.{Agent}
use conduit_bmc.Manager.Sql.{Engine, Fault, repository_error}

pub record AgentRow : Type 0 where
  pub id : Text
  pub datacenter_id : Text
  pub endpoint : Text
  pub status : Text
  pub last_seen : ℕ
  pub created_at : ℕ

unfoldable pub to_model : AgentRow → Agent
to_model r = record {
  id = r.id;
  datacenter_id = r.datacenter_id;
  endpoint = r.endpoint;
  status = r.status;
  last_seen = r.last_seen;
  created_at = r.created_at;
}

unfoldable pub from_model : Agent → AgentRow
from_model m = record {
  id = m.id;
  datacenter_id = m.datacenter_id;
  endpoint = m.endpoint;
  status = m.status;
  last_seen = m.last_seen;
  created_at = m.created_at;
}

module _ (e : Engine) where
  unfoldable pub get : Text → e.Table AgentRow → Result Fault Agent
  unfolding to_model
  get id t = repository_error (e.find (λ r. r.id) id t) >>= λ r. ok (to_model r)

  unfoldable pub get_by_datacenter : Text → e.Table AgentRow → Result Fault Agent
  unfolding to_model
  get_by_datacenter datacenter_id t =
      repository_error (e.find (λ r. r.datacenter_id) datacenter_id t) >>= λ r. ok (to_model r)

  unfoldable pub list : e.Table AgentRow → Result Fault (List Agent)
  unfolding to_model
  list t =
      repository_error (e.select (λ r. true) (λ r. r.created_at) t) >>= λ rs. ok (map to_model rs)

  unfoldable pub create : Agent → e.Table AgentRow → Result Fault (e.Table AgentRow)
  unfolding from_model
  create m t = repository_error (e.insert (λ r. r.id) (from_model m) t)

  unfoldable pub update : Agent → e.Table AgentRow → Result Fault (e.Table AgentRow)
  unfolding from_model
  update m t = repository_error (e.update (λ r. r.id) (from_model m) t)

  unfoldable pub delete : Text → e.Table AgentRow → Result Fault (e.Table AgentRow)
  delete id t = repository_error (e.delete (λ r. r.id) id t)

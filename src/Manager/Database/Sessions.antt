-- ===== src/Manager/Database/Sessions.antt =====
-- manager/internal/database: the ProxySession of models.go, its conversions, and its repository in
-- repositories.go, over the table that it is given.
use conduit_bmc.Base.{Text, same, Result, ok, ◌>>=◌, ℕ, List, map}
use conduit_bmc.Manager.Models.{ProxySession}
use conduit_bmc.Manager.Sql.{Engine, Fault, repository_error}

pub record ProxySessionRow : Type 0 where
  pub id : Text
  pub customer_id : Text
  pub server_id : Text
  pub agent_id : Text
  pub status : Text
  pub created_at : ℕ
  pub expires_at : ℕ

unfoldable pub to_model : ProxySessionRow → ProxySession
to_model r = record {
  id = r.id;
  customer_id = r.customer_id;
  server_id = r.server_id;
  agent_id = r.agent_id;
  status = r.status;
  created_at = r.created_at;
  expires_at = r.expires_at;
}

unfoldable pub from_model : ProxySession → ProxySessionRow
from_model m = record {
  id = m.id;
  customer_id = m.customer_id;
  server_id = m.server_id;
  agent_id = m.agent_id;
  status = m.status;
  created_at = m.created_at;
  expires_at = m.expires_at;
}

module _ (e : Engine) where
  unfoldable pub get : Text → e.Table ProxySessionRow → Result Fault ProxySession
  unfolding to_model
  get id t = repository_error (e.find (λ r. r.id) id t) >>= λ r. ok (to_model r)

  unfoldable pub list_by_customer :
      Text → e.Table ProxySessionRow → Result Fault (List ProxySession)
  unfolding to_model
  list_by_customer customer_id t =
      repository_error (e.select (λ r. same r.customer_id customer_id) (λ r. r.created_at) t)
      >>= λ rs. ok (map to_model rs)

  unfoldable pub create :
      ProxySession → e.Table ProxySessionRow → Result Fault (e.Table ProxySessionRow)
  unfolding from_model
  create m t = repository_error (e.insert (λ r. r.id) (from_model m) t)

  unfoldable pub update :
      ProxySession → e.Table ProxySessionRow → Result Fault (e.Table ProxySessionRow)
  unfolding from_model
  update m t = repository_error (e.update (λ r. r.id) (from_model m) t)

  unfoldable pub delete : Text → e.Table ProxySessionRow → Result Fault (e.Table ProxySessionRow)
  delete id t = repository_error (e.delete (λ r. r.id) id t)

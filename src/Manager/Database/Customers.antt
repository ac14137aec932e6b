-- ===== src/Manager/Database/Customers.antt =====
-- manager/internal/database: the Customer of models.go, its conversions, and its repository in
-- repositories.go, over the table that it is given.
use conduit_bmc.Base.{Text, Result, ok, ◌>>=◌, ℕ, Bool}
use conduit_bmc.Auth.Token.{Customer}
use conduit_bmc.Manager.Sql.{Engine, Fault, repository_error}

pub record CustomerRow : Type 0 where
  pub id : Text
  pub email : Text
  pub api_key : Text
  pub is_admin : Bool
  pub created_at : ℕ

unfoldable pub to_model : CustomerRow → Customer
to_model r = record {
  id = r.id;
  email = r.email;
  api_key = r.api_key;
  is_admin = r.is_admin;
  created_at = r.created_at;
}

unfoldable pub from_model : Customer → CustomerRow
from_model m = record {
  id = m.id;
  email = m.email;
  api_key = m.api_key;
  is_admin = m.is_admin;
  created_at = m.created_at;
}

module _ (e : Engine) where
  unfoldable pub get : Text → e.Table CustomerRow → Result Fault Customer
  unfolding to_model
  get id t = repository_error (e.find (λ r. r.id) id t) >>= λ r. ok (to_model r)

  unfoldable pub get_by_email : Text → e.Table CustomerRow → Result Fault Customer
  unfolding to_model
  get_by_email email t = repository_error (e.find (λ r. r.email) email t) >>= λ r. ok (to_model r)

  unfoldable pub get_by_api_key : Text → e.Table CustomerRow → Result Fault Customer
  unfolding to_model
  get_by_api_key api_key t =
      repository_error (e.find (λ r. r.api_key) api_key t) >>= λ r. ok (to_model r)

  unfoldable pub create : Customer → e.Table CustomerRow → Result Fault (e.Table CustomerRow)
  unfolding from_model
  create m t = repository_error (e.insert (λ r. r.id) (from_model m) t)

  unfoldable pub update : Customer → e.Table CustomerRow → Result Fault (e.Table CustomerRow)
  unfolding from_model
  update m t = repository_error (e.update (λ r. r.id) (from_model m) t)

  unfoldable pub delete : Text → e.Table CustomerRow → Result Fault (e.Table CustomerRow)
  delete id t = repository_error (e.delete (λ r. r.id) id t)

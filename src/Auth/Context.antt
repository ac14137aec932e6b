-- ===== src/Auth/Context.antt =====
-- core/auth/context.go and core/auth/claims.go. A `time.Time` is a number of nanoseconds.
use conduit_bmc.Base.{ℕ, Bool, true, false, List, [], ◌∷◌, Text, same, if◌then◌else◌}

pub record ServerContext : Type 0 where
  pub server_id : Text
  pub customer_id : Text
  pub bmc_endpoint : Text
  pub bmc_type : Text
  pub features : List Text
  pub datacenter_id : Text
  pub permissions : List Text
  pub issued_at : ℕ
  pub expires_at : ℕ

-- The loop of `HasPermission`.
unfoldable pub listed : Text → List Text → Bool
listed permission [] = false
listed permission (p ∷ ps) = if same p permission then true else listed permission ps

unfoldable pub has_permission : ServerContext → Text → Bool
has_permission sc permission = listed permission sc.permissions

-- manager/pkg/models.AuthClaims.
pub record AuthClaims : Type 0 where
  pub customer_id : Text
  pub email : Text
  pub is_admin : Bool
  pub jti : Text

-- What the request's context may hold under "claims". Go tells the two types apart: a value of the
-- manager's models.AuthClaims is no value of core/auth.AuthClaims.
pub data ClaimsValue : Type 0 where
  manager_claims : AuthClaims → ClaimsValue
  core_claims : Text → Text → Text → ClaimsValue

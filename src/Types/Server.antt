-- ===== src/Types/Server.antt =====
-- core/domain/server.go. The discovery metadata are a type parameter: no method reads them.
pub mod Primary
use conduit_bmc.Base.{
  if◌then◌else◌, Text, same, is_empty, Map, ℕ, Option, none, some, List, [], ◌∷◌,
}
use conduit_bmc.Types.Endpoints.{BmcControlEndpoint, SolEndpoint, VncEndpoint}

pub record Server (Discovery : Type 0) : Type 0 where
  pub id : Text
  pub customer_id : Text
  pub datacenter_id : Text
  pub control_endpoints : List BmcControlEndpoint
  pub primary_protocol : Text
  pub sol_endpoint : Option SolEndpoint
  pub vnc_endpoint : Option VncEndpoint
  pub features : List Text
  pub status : Text
  pub metadata : Map Text
  pub discovery_metadata : Option Discovery
  pub created_at : ℕ
  pub updated_at : ℕ

-- The loop for an endpoint of the protocol.
unfoldable pub of_protocol : Text → List BmcControlEndpoint → Option BmcControlEndpoint
of_protocol protocol [] = none
of_protocol protocol (e ∷ es) =
    let rest = of_protocol protocol es in if same e.bmc_type protocol then some e else rest

-- The first endpoint, unless the loop has found one.
unfoldable pub first_unless :
    Option BmcControlEndpoint → List BmcControlEndpoint → Option BmcControlEndpoint
first_unless found [] = none
first_unless (some e) (first ∷ es) = some e
first_unless none (first ∷ es) = some first

-- The pointers of the slice are not nil.
unfoldable pub get_primary_control_endpoint : {D : Type 0} → Server D → Option BmcControlEndpoint
unfolding of_protocol first_unless
get_primary_control_endpoint s =
    first_unless
      (if is_empty s.primary_protocol
        then none
        else of_protocol s.primary_protocol s.control_endpoints)
      s.control_endpoints

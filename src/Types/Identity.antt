-- ===== src/Types/Identity.antt =====
-- core/identity/server.go, and the same function in manager/pkg/models/models.go: server ids that the
-- manager makes up for the BMC addresses that gateways report.
pub mod Sanitized
use conduit_bmc.Base.{◌==◌, if◌then◌else◌, Text, str, ℕ, ◌+◌, ◌-◌, [], ◌∷◌, ◌++◌}

-- `strings.ReplaceAll` of one byte by another.
unfoldable pub replace_all : ℕ → ℕ → Text → Text
replace_all old new [] = []
replace_all old new (c ∷ s) = (if c == old then new else c) ∷ replace_all old new s

unfoldable pub sanitize_bmc_endpoint_for_id : Text → Text
sanitize_bmc_endpoint_for_id e = replace_all b'.' b'-' (replace_all b':' b'-' e)

unfoldable pub generate_server_id_from_bmc_endpoint : Text → Text → Text
generate_server_id_from_bmc_endpoint datacenter_id bmc_endpoint =
    str "bmc-"
    ++ (datacenter_id ++ (str "-" ++ replace_all b'.' b'-' (replace_all b':' b'-' bmc_endpoint)))

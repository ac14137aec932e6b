-- ===== src/Types/Tests.antt =====
-- Inference, identities, endpoints and conversions at concrete inputs.
use conduit_bmc.Base.{
  ◌==◌, if◌then◌else◌, length, str, same, ◌≡◌, refl, inl, inr, not, ◌&&◌, none, some, [], ◌∷◌,
}
use conduit_bmc.Types.Infer.{infer_bmc_type, infer, slice_to, test_slice}
use conduit_bmc.Types.Infer.Table.{has_prefix, inferred, infer_bmc_type_table}
use conduit_bmc.Types.Endpoints.{BmcControlEndpoint, bmc_ipmi, bmc_redfish}
use conduit_bmc.Types.Server.{Server, of_protocol, first_unless, get_primary_control_endpoint}
use conduit_bmc.Types.Discovery.{DiscoveryMetadata, method_network_scan}
use conduit_bmc.Types.Discovery.Proto.{convert_to_proto, convert_discovery_metadata_from_proto}
use conduit_bmc.Types.Discovery.Proto.RoundTrip.{from-to_proto}

infer_bmc_type_table_example : infer_bmc_type (str "1.2.3.4") ≡ (
    if (length (str "1.2.3.4") == 7) && not (has_prefix (str "http://") (str "1.2.3.4"))
    then none
    else some
        (inferred (str "http://") (str "https://") (str "redfish") (str "ipmi") (str "1.2.3.4")))
infer_bmc_type_table_example = infer_bmc_type_table (str "1.2.3.4")

-- An IPv4 address of seven characters.
panics : infer_bmc_type (str "1.2.3.4") ≡ none
unfolding infer_bmc_type infer slice_to test_slice same
panics = refl

abbrev ipmi_endpoint : BmcControlEndpoint
ipmi_endpoint = record {
  endpoint = str "10.0.0.1:623";
  bmc_type = bmc_ipmi;
  username = [];
  password = [];
  tls = none;
  capabilities = [];
}

abbrev redfish_endpoint : BmcControlEndpoint
redfish_endpoint = record ipmi_endpoint { endpoint = str "https://bmc"; bmc_type = bmc_redfish }

abbrev two_endpoints : Server DiscoveryMetadata
two_endpoints = record {
  id = str "s1";
  customer_id = str "ann";
  datacenter_id = str "dc";
  control_endpoints = ipmi_endpoint ∷ redfish_endpoint ∷ [];
  primary_protocol = bmc_redfish;
  sol_endpoint = none;
  vnc_endpoint = none;
  features = [];
  status = str "active";
  metadata = [];
  discovery_metadata = none;
  created_at = 1;
  updated_at = 1;
}

second_chosen : get_primary_control_endpoint two_endpoints ≡ some redfish_endpoint
unfolding get_primary_control_endpoint of_protocol first_unless same
second_chosen = refl

abbrev scanned : DiscoveryMetadata
scanned = record {
  discovery_method = method_network_scan;
  discovered_at = 7;
  discovery_source = str "10.0.0.0/24";
  config_source = [];
  vendor = some (record {
    manufacturer = str "Dell";
    model = str "R750";
    firmware_version = [];
    bmc_version = [];
  });
  protocol = none;
  endpoints = none;
  security = none;
  network = none;
  capabilities = none;
  additional_info = (str "rack", str "12") ∷ [];
}

from-to_proto_example :
    convert_discovery_metadata_from_proto (convert_to_proto (some scanned)) ≡ some scanned
from-to_proto_example = from-to_proto scanned (inr (inr (inl refl)))

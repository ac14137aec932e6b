-- ===== src/Discovery/Metadata.antt =====
-- local-agent/internal/discovery/discovery.go: buildDiscoveryMetadata.
use conduit_bmc.Base.{
  ltb, if◌then◌else◌, length, Text, str, same, is_empty, after_prefix, Map, lookup, ℕ, ◌+◌, ◌-◌,
  ◌*◌, ◌%◌, ◌^◌, Bool, true, false, not, ◌&&◌, Option, none, some, [], ◌∷◌, ◌++◌,
}
use mathlib.Core.Option
use conduit_bmc.Types.Endpoints.{TlsConfig, BmcControlEndpoint, SolEndpoint, VncEndpoint}
use conduit_bmc.Types.Server.{Server, get_primary_control_endpoint}
use conduit_bmc.Types.Discovery.{
  DiscoveryMetadata, VendorInfo, ProtocolConfig, EndpointDetails, SecurityConfig, NetworkInfo,
  CapabilityInfo,
}
use conduit_bmc.Discovery.{Network}

-- `strings.Contains`.
unfoldable pub contains : Text → Text → Bool
contains sub [] = is_empty sub
contains sub (c ∷ s) =
    let rest = contains sub s in
    elim (after_prefix sub (c ∷ s)) [ some behind ↦ true | none ↦ rest ]

-- `fmt.Sscanf` of "%d" into an int32, for the digits that a URL's port has: zero if the number has no
-- room.
unfoldable pub digits_value : ℕ → Text → ℕ
digits_value n [] = n
digits_value n (d ∷ ds) = digits_value (n * 10 + (d - b'0')) ds

unfoldable pub scan_port : Text → ℕ
unfolding digits_value
scan_port port = let n = digits_value 0 port in if ltb n (2 ^ 31) then n else 0

abbrev or_empty : Option Text → Text
or_empty none = []
or_empty (some t) = t

unfoldable pub falls_back : Map Text → Bool
falls_back metadata = elim (lookup (str "sol_fallback") metadata) [
  | some t ↦ same t (str "ipmi")
  | none ↦ false
]

-- The path of a Redfish console's URL.
unfoldable pub console_path_of : Network → SolEndpoint → Text
unfolding contains
console_path_of net sol =
    if same sol.sol_type (str "redfish_serial") && contains (str "/redfish/") sol.endpoint
    then elim (net.parse_url sol.endpoint) [ some u ↦ u.path | none ↦ [] ]
    else []

unfoldable pub protocol_config :
    Network → Server DiscoveryMetadata → BmcControlEndpoint → ProtocolConfig
unfolding falls_back console_path_of
protocol_config net server primary = record {
  primary_protocol = primary.bmc_type;
  primary_version = if same primary.bmc_type (str "ipmi") then str "2.0" else [];
  fallback_protocol = if falls_back server.metadata then str "ipmi" else [];
  fallback_reason =
      if falls_back server.metadata
      then str "Vendor "
        ++ (or_empty (lookup (str "vendor") server.metadata)
            ++ str " requires IPMI fallback for console")
      else [];
  console_type = elim server.sol_endpoint [ some sol ↦ sol.sol_type | none ↦ [] ];
  console_path = elim server.sol_endpoint [ some sol ↦ console_path_of net sol | none ↦ [] ];
  vnc_transport = elim server.vnc_endpoint [ some vnc ↦ vnc.vnc_type | none ↦ [] ];
}

-- The display is not set.
unfoldable pub endpoint_details :
    Network → Server DiscoveryMetadata → BmcControlEndpoint → EndpointDetails
unfolding scan_port
endpoint_details net server primary = record {
  control_endpoint = primary.endpoint;
  control_scheme = elim (net.parse_url primary.endpoint) [ some u ↦ u.scheme | none ↦ [] ];
  control_port = elim (net.parse_url primary.endpoint) [
    | some u ↦ if is_empty u.port then 0 else scan_port u.port
    | none ↦ 0
  ];
  console_endpoint = elim server.sol_endpoint [ some sol ↦ sol.endpoint | none ↦ [] ];
  vnc_endpoint = elim server.vnc_endpoint [ some vnc ↦ vnc.endpoint | none ↦ [] ];
  vnc_display = 0;
}

abbrev tls_of : Option BmcControlEndpoint → Option TlsConfig
tls_of none = none
tls_of (some e) = e.tls

abbrev vnc_password : Option VncEndpoint → Text
vnc_password none = []
vnc_password (some vnc) = vnc.password

unfoldable pub security_config : Server DiscoveryMetadata → SecurityConfig
security_config server =
    let tls = tls_of (get_primary_control_endpoint server) in
    let password = vnc_password server.vnc_endpoint in
    record {
      tls_enabled = elim tls [ some t ↦ t.enabled | none ↦ false ];
      tls_verify = elim tls [ some t ↦ not t.insecure_skip_verify | none ↦ false ];
      auth_method = str "basic";
      vnc_auth_type = if is_empty password then [] else str "password";
      vnc_password_length = length password % 2 ^ 32;
      ipmi_cipher_suite = [];
    }

unfoldable pub ip_address_of : Network → Text → Text
unfolding contains
ip_address_of net endpoint = elim (net.parse_url endpoint) [
  | some u ↦ u.hostname
  | none ↦
      if contains (str ":") endpoint
      then elim (net.split_host_port endpoint) [ some (host, port) ↦ host | none ↦ [] ]
      else []
]

unfoldable pub network_info : Network → BmcControlEndpoint → NetworkInfo
unfolding ip_address_of
network_info net primary = record {
  ip_address = ip_address_of net primary.endpoint;
  mac_address = [];
  network_segment = [];
  vlan_id = [];
  reachable = true;
  latency_ms = 0;
}

unfoldable pub capability_info : Server DiscoveryMetadata → CapabilityInfo
capability_info server = record {
  supported_features = server.features;
  unsupported_features = [];
  discovery_errors = elim (lookup (str "discovery_error") server.metadata) [
    | some e ↦ e ∷ []
    | none ↦ []
  ];
  discovery_warnings = [];
}

unfoldable pub vendor_info : Option Text → Option VendorInfo
vendor_info none = none
vendor_info (some vendor) =
    if is_empty vendor
    then none
    else some
        (record { manufacturer = vendor; model = []; firmware_version = []; bmc_version = [] })

-- The parts about the primary endpoint are there if there is one. The caller sets the time.
unfoldable pub build_discovery_metadata :
    Network → Text → Server DiscoveryMetadata → Text → Text → DiscoveryMetadata
unfolding protocol_config endpoint_details security_config network_info capability_info vendor_info
build_discovery_metadata net agent_id server discovery_method config_source =
    let primary = get_primary_control_endpoint server in
    record {
      discovery_method = discovery_method;
      discovered_at = 0;
      discovery_source = agent_id;
      config_source = config_source;
      vendor = vendor_info (lookup (str "vendor") server.metadata);
      protocol = Option.map (λ e. protocol_config net server e) primary;
      endpoints = Option.map (λ e. endpoint_details net server e) primary;
      security = some (security_config server);
      network = Option.map (λ e. network_info net e) primary;
      capabilities = some (capability_info server);
      additional_info = [];
    }

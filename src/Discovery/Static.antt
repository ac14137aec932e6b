-- ===== src/Discovery/Static.antt =====
-- local-agent/internal/discovery/discovery.go: the hosts that are configured by hand. A server shares
-- the map of metadata of its host, unless that is nil, so that what discovery writes into it stays
-- in the configuration. None is a panic.
pub mod Stale
use conduit_bmc.Base.{
  if◌then◌else◌, Text, str, same, is_empty, Map, lookup, insert, Result, ok, err, ℕ, ◌+◌, Bool,
  true, false, not, ◌&&◌, ◌||◌, Option, none, some, List, [], ◌∷◌, ◌++◌,
}
use conduit_bmc.Types.Endpoints.{
  BmcControlEndpoint, SolEndpoint, VncEndpoint, bmc_redfish, sol_ipmi, sol_redfish_serial,
}
use conduit_bmc.Types.Server.{Server, get_primary_control_endpoint}
use conduit_bmc.Types.Discovery.{DiscoveryMetadata, method_static_config}
use conduit_bmc.Discovery.{Network, SerialConsoleInfo}
use conduit_bmc.Discovery.Config.{
  BmcHost, ConfigBmcControlEndpoint, ConfigSolEndpoint, ConfigVncEndpoint, to_control_endpoint,
  to_sol_endpoint, to_vnc_endpoint,
}
use conduit_bmc.Discovery.Metadata.{build_discovery_metadata}

unfoldable pub control_endpoints_of :
    List ConfigBmcControlEndpoint → Option (List BmcControlEndpoint)
control_endpoints_of [] = some []
control_endpoints_of (e ∷ es) =
    let rest = control_endpoints_of es in
    elim (to_control_endpoint e) [
      | none ↦ none
      | some first ↦ elim rest [ none ↦ none | some others ↦ some (first ∷ others) ]
    ]

unfoldable pub sol_of : Option ConfigSolEndpoint → Option (Option SolEndpoint)
sol_of none = some none
sol_of (some s) = elim (to_sol_endpoint s) [ none ↦ none | some e ↦ some (some e) ]

unfoldable pub vnc_of : Option ConfigVncEndpoint → Option (Option VncEndpoint)
vnc_of none = some none
vnc_of (some v) = elim (to_vnc_endpoint v) [ none ↦ none | some e ↦ some (some e) ]

abbrev first_type : List BmcControlEndpoint → Text
first_type [] = []
first_type (e ∷ es) = e.bmc_type

-- A nil map is replaced by an empty one.
abbrev pub metadata_of : Option (Map Text) → Map Text
metadata_of none = []
metadata_of (some m) = m

unfoldable pub configured :
    BmcHost
    → List BmcControlEndpoint
    → Option SolEndpoint
    → Option VncEndpoint
    → Server DiscoveryMetadata
configured host endpoints sol vnc = record {
  id = host.id;
  customer_id = host.customer_id;
  datacenter_id = [];
  control_endpoints = endpoints;
  primary_protocol = first_type endpoints;
  sol_endpoint = sol;
  vnc_endpoint = vnc;
  features = host.features;
  status = str "configured";
  metadata = metadata_of host.metadata;
  discovery_metadata = none;
  created_at = 0;
  updated_at = 0;
}

unfoldable pub configured_server : BmcHost → Option (Server DiscoveryMetadata)
unfolding control_endpoints_of sol_of vnc_of configured
configured_server host = elim (control_endpoints_of host.control_endpoints) [
  | none ↦ none
  | some endpoints ↦ elim (sol_of host.sol_endpoint) [
    | none ↦ none
    | some sol ↦ elim (vnc_of host.vnc_endpoint) [
      | none ↦ none
      | some vnc ↦ some (configured host endpoints sol vnc)
    ]
  ]
]

-- The host of a Redfish address, at IPMI's port.
unfoldable pub build_ipmi_endpoint : Network → Text → Option Text
build_ipmi_endpoint net redfish_endpoint = elim (net.parse_url redfish_endpoint) [
  | none ↦ none
  | some u ↦ elim (net.split_host_port u.host) [
    | some (host, port) ↦ some (host ++ str ":623")
    | none ↦ some (u.host ++ str ":623")
  ]
]

abbrev sol_at : Text → Text → BmcControlEndpoint → SolEndpoint
sol_at sol_type endpoint e = record {
  sol_type = sol_type;
  endpoint = endpoint;
  username = e.username;
  password = e.password;
  config = none;
}

unfoldable pub fall_back_to_ipmi :
    Option Text → BmcControlEndpoint → Server DiscoveryMetadata → Server DiscoveryMetadata
fall_back_to_ipmi none e s = s
fall_back_to_ipmi (some ipmi_endpoint) e s = record s {
  sol_endpoint = some (sol_at sol_ipmi ipmi_endpoint e);
  metadata = insert (str "sol_fallback") (str "ipmi") s.metadata;
}

unfoldable pub with_sol :
    Network
    → SerialConsoleInfo
    → BmcControlEndpoint
    → Server DiscoveryMetadata
    → Server DiscoveryMetadata
unfolding build_ipmi_endpoint fall_back_to_ipmi
with_sol net info e s =
    if info.supported && not (is_empty info.serial_path)
    then record s {
      sol_endpoint = some (sol_at sol_redfish_serial (e.endpoint ++ info.serial_path) e);
    }
    else if info.fallback_to_ipmi
    then fall_back_to_ipmi (build_ipmi_endpoint net e.endpoint) e s
    else record s { sol_endpoint = none }

unfoldable pub lists : Text → List Text → Bool
lists feature [] = false
lists feature (f ∷ fs) = if same f feature then true else lists feature fs

unfoldable pub with_console :
    SerialConsoleInfo → Server DiscoveryMetadata → Server DiscoveryMetadata
unfolding lists
with_console info s =
    if info.supported || info.fallback_to_ipmi
    then (if lists (str "console") s.features
        then s
        else record s { features = s.features ++ (str "console" ∷ []) })
    else s

unfoldable pub discovered :
    Network
    → BmcControlEndpoint
    → Result Text SerialConsoleInfo
    → Server DiscoveryMetadata
    → Server DiscoveryMetadata
unfolding with_sol with_console
discovered net e (err message) s = record s {
  metadata = insert (str "discovery_error") message s.metadata;
}
discovered net e (ok info) s =
    with_console info
      (with_sol net info e (record s { metadata = insert (str "vendor") info.vendor s.metadata }))

-- The consoles of a host whose primary endpoint speaks Redfish.
unfoldable pub discover_console :
    Network → Option BmcControlEndpoint → Server DiscoveryMetadata → Server DiscoveryMetadata
unfolding discovered
discover_console net none s = s
discover_console net (some e) s =
    if same e.bmc_type bmc_redfish
    then discovered net e (net.discover_serial_console e.endpoint e.username e.password) s
    else s

unfoldable pub described : Network → ℕ → Text → Server DiscoveryMetadata → Server DiscoveryMetadata
described net now agent_id s = record s {
  discovery_metadata =
      some
        (record (build_discovery_metadata net agent_id s method_static_config (str "config.yaml")) {
          discovered_at = now;
        });
}

-- What of the server stays in the configuration.
unfoldable pub write_back : Server DiscoveryMetadata → BmcHost → BmcHost
write_back s host = elim host.metadata [
  | none ↦ host
  | some m ↦ record host { metadata = some s.metadata }
]

unfoldable pub load_static_server :
    Network → ℕ → Text → BmcHost → Option (Server DiscoveryMetadata × BmcHost)
unfolding configured_server discover_console described write_back
load_static_server net now agent_id host = elim (configured_server host) [
  | none ↦ none
  | some s ↦
      let found = discover_console net (get_primary_control_endpoint s) s in
      some (described net now agent_id found, write_back found host)
]

-- The servers, and the configuration that is left.
unfoldable pub load_static_servers :
    Network → ℕ → Text → List BmcHost → Option (List (Server DiscoveryMetadata) × List BmcHost)
unfolding load_static_server
load_static_servers net now agent_id [] = some ([], [])
load_static_servers net now agent_id (host ∷ hosts) =
    let rest = load_static_servers net now agent_id hosts in
    elim (load_static_server net now agent_id host) [
      | none ↦ none
      | some (s, h) ↦ elim rest [ none ↦ none | some (ss, hs) ↦ some (s ∷ ss, h ∷ hs) ]
    ]

-- The addresses of the static servers.
unfoldable pub static_endpoints : List (Server DiscoveryMetadata) → Map Bool → Map Bool
static_endpoints [] m = m
static_endpoints (s ∷ ss) m =
    static_endpoints ss
      (elim (get_primary_control_endpoint s) [ some e ↦ insert e.endpoint true m | none ↦ m ])

-- The address that is looked up: the empty text for a server without endpoints.
unfoldable pub primary_address : Server DiscoveryMetadata → Text
primary_address s = elim (get_primary_control_endpoint s) [ some e ↦ e.endpoint | none ↦ [] ]

unfoldable pub is_static : Map Bool → Text → Bool
is_static endpoints address = elim (lookup address endpoints) [ some b ↦ b | none ↦ false ]

unfoldable pub not_static :
    Map Bool → List (Server DiscoveryMetadata) → List (Server DiscoveryMetadata)
unfolding is_static primary_address
not_static endpoints [] = []
not_static endpoints (s ∷ ss) =
    let rest = not_static endpoints ss in
    if not (is_static endpoints (primary_address s)) then s ∷ rest else rest

unfoldable pub filter_duplicates :
    List (Server DiscoveryMetadata)
    → List (Server DiscoveryMetadata)
    → List (Server DiscoveryMetadata)
unfolding static_endpoints not_static
filter_duplicates static_servers discovered_servers =
    not_static (static_endpoints static_servers []) discovered_servers

-- ===== src/Discovery/Scan.antt =====
-- local-agent/internal/discovery/discovery.go: the scan of the local networks, and the discovery as a
-- whole. Go's net and the state of the machine's interfaces are parameters.
pub mod Bounded
pub mod Filtered
use conduit_bmc.Base.{
  leb, ◌==◌, if◌then◌else◌, set, get_or, Text, str, decimal, Result, ok, err, ◌>>=◌, ◌>>◌, or_fail,
  ℕ, zero, suc, ◌+◌, ◌-◌, ◌/◌, Bool, false, not, ◌&&◌, ◌||◌, Option, none, some, List, [], ◌∷◌,
  ◌++◌,
}
use conduit_bmc.Types.Endpoints.{
  BmcControlEndpoint, SolEndpoint, bmc_ipmi, bmc_redfish, sol_redfish_serial,
}
use conduit_bmc.Types.Server.{Server}
use conduit_bmc.Types.Identity.{replace_all}
use conduit_bmc.Types.Discovery.{DiscoveryMetadata}
use conduit_bmc.Discovery.{Network, SerialConsoleInfo}
use conduit_bmc.Discovery.Config.{BmcHost}
use conduit_bmc.Discovery.Static.{lists, load_static_servers, filter_duplicates}

-- A `net.IPNet`: the four bytes of its address, if it has four, what it contains, and its text.
pub record IpNet : Type 0 where
  pub to4 : Option (List ℕ)
  pub contains : List ℕ → Bool
  pub text : Text

-- The addresses are none when they cannot be read; an address of another type than two is none.
pub record Interface : Type 0 where
  pub is_loopback : Bool
  pub is_up : Bool
  pub addrs : Option (List (Option IpNet))

pub record Machine : Type 0 where
  pub parse_cidr : Text → Option IpNet
  pub print_ip : List ℕ → Text
  pub interfaces : Option (List Interface)

pub data Error : Type 0 where
  invalid_subnet cancelled no_interfaces : Error

-- The loop over the last octet, from `i` on, with `n` addresses found; `f` bounds the steps left.
unfoldable pub scan_octets : IpNet → List ℕ → ℕ → ℕ → ℕ → List (List ℕ)
scan_octets net base zero i n = []
scan_octets net base (suc f) i n =
    let ip = set base 3 i in
    let here = net.contains ip in
    let count = if here then suc n else n in
    let rest = scan_octets net base f (suc i) count in
    let more = if leb 100 count then [] else rest in if here then ip ∷ more else more

unfoldable pub generate_ips_from_subnet : IpNet → List (List ℕ)
unfolding scan_octets
generate_ips_from_subnet net = elim net.to4 [ none ↦ [] | some base ↦ scan_octets net base 254 1 0 ]

abbrev scanned_server : Text → Text → Text → List Text → Server DiscoveryMetadata
scanned_server id endpoint bmc_type capabilities = record {
  id = id;
  customer_id = str "customer-1";
  datacenter_id = [];
  control_endpoints =
      record {
        endpoint = endpoint;
        bmc_type = bmc_type;
        username = str "admin";
        password = str "password";
        tls = none;
        capabilities = capabilities;
      }
      ∷ [];
  primary_protocol = bmc_type;
  sol_endpoint = none;
  vnc_endpoint = none;
  features = str "power" ∷ str "console" ∷ str "vnc" ∷ str "sensors" ∷ [];
  status = str "active";
  metadata = [];
  discovery_metadata = none;
  created_at = 0;
  updated_at = 0;
}

abbrev pub dashed : Text → Text
dashed t = replace_all b'.' b'-' t

unfoldable pub ipmi_capabilities : List Text
ipmi_capabilities = str "sel" ∷ str "sdr" ∷ str "fru" ∷ str "chassis" ∷ str "lan" ∷ []

unfoldable pub redfish_capabilities : List Text
redfish_capabilities =
    str "Systems" ∷ str "Chassis" ∷ str "Managers" ∷ str "SessionService" ∷ str "EventService" ∷ []

unfoldable pub ipmi_server : Text → Text → Server DiscoveryMetadata
unfolding ipmi_capabilities
ipmi_server ip endpoint =
    scanned_server (str "server-" ++ dashed ip) endpoint bmc_ipmi ipmi_capabilities

unfoldable pub redfish_server : Text → Text → ℕ → Server DiscoveryMetadata
unfolding redfish_capabilities
redfish_server ip endpoint port =
    scanned_server (str "server-" ++ (dashed ip ++ (str "-" ++ decimal port))) endpoint bmc_redfish
      redfish_capabilities

abbrev with_console : Server DiscoveryMetadata → Server DiscoveryMetadata
with_console s =
    if lists (str "console") s.features
    then s
    else record s { features = s.features ++ (str "console" ∷ []) }

-- What the console's discovery adds to a server found by the scan.
unfoldable pub with_serial_console :
    Text → Result Text SerialConsoleInfo → Server DiscoveryMetadata → Server DiscoveryMetadata
with_serial_console endpoint (err message) s = record s {
  metadata = (str "discovery_error", message) ∷ [];
}
with_serial_console endpoint (ok info) s =
    if info.supported
    then with_console (record s {
      sol_endpoint = some (record {
        sol_type = sol_redfish_serial;
        endpoint = endpoint ++ str "/redfish/v1/Managers/1/SerialConsole";
        username = str "admin";
        password = str "password";
        config = none;
      });
    })
    else s

module _ (m : Machine) (net : Network) (is_cancelled : Text → Bool) where
  -- The loop over the addresses; the context may be cancelled before any of them.
  unfoldable pub scan_ipmi : List (List ℕ) → Result Error (List (Server DiscoveryMetadata))
  unfolding ipmi_server
  scan_ipmi [] = ok []
  scan_ipmi (a ∷ ips) =
      let rest = scan_ipmi ips in
      let ip = m.print_ip a in
      let endpoint = ip ++ str ":623" in
      if is_cancelled ip
      then err cancelled
      else if net.ipmi_accessible endpoint
      then (rest >>= λ ss. ok (ipmi_server ip endpoint ∷ ss))
      else rest

  unfoldable pub discover_ipmi : Text → Result Error (List (Server DiscoveryMetadata))
  unfolding scan_ipmi
  discover_ipmi subnet = do
    ipnet ← or_fail (m.parse_cidr subnet) invalid_subnet
    scan_ipmi (generate_ips_from_subnet ipnet)

  -- The loop over the ports, up to the first that answers.
  unfoldable pub try_ports : Text → List ℕ → Option (Server DiscoveryMetadata)
  unfolding redfish_server with_serial_console
  try_ports ip [] = none
  try_ports ip (port ∷ ports) =
      let rest = try_ports ip ports in
      let endpoint = str "https://" ++ (ip ++ (str ":" ++ decimal port)) in
      if net.redfish_accessible endpoint
      then some (
          with_serial_console endpoint
            (net.discover_serial_console endpoint (str "admin") (str "password"))
            (redfish_server ip endpoint port))
      else rest

  unfoldable pub scan_redfish : List (List ℕ) → Result Error (List (Server DiscoveryMetadata))
  unfolding try_ports
  scan_redfish [] = ok []
  scan_redfish (a ∷ ips) =
      let rest = scan_redfish ips in
      let ip = m.print_ip a in
      if is_cancelled ip then err cancelled else elim (try_ports ip (443 ∷ 8443 ∷ 8080 ∷ [])) [
        | some s ↦ (rest >>= λ ss. ok (s ∷ ss))
        | none ↦ rest
      ]

  unfoldable pub discover_redfish : Text → Result Error (List (Server DiscoveryMetadata))
  unfolding scan_redfish
  discover_redfish subnet = do
    ipnet ← or_fail (m.parse_cidr subnet) invalid_subnet
    scan_redfish (generate_ips_from_subnet ipnet)

  -- 192.168.x.x, 10.x.x.x and 172.16-31.x.x.
  unfoldable pub is_bmc_subnet : IpNet → Bool
  is_bmc_subnet ipnet = elim ipnet.to4 [
    | none ↦ false
    | some ip ↦
        ((get_or ip 0 0 == 192) && (get_or ip 1 0 == 168))
        || ((get_or ip 0 0 == 10)
            || ((get_or ip 0 0 == 172) && (leb 16 (get_or ip 1 0) && leb (get_or ip 1 0) 31)))
  ]

  unfoldable pub bmc_subnets_of : List (Option IpNet) → List Text
  unfolding is_bmc_subnet
  bmc_subnets_of [] = []
  bmc_subnets_of (none ∷ addrs) = bmc_subnets_of addrs
  bmc_subnets_of (some ipnet ∷ addrs) =
      let rest = bmc_subnets_of addrs in if is_bmc_subnet ipnet then ipnet.text ∷ rest else rest

  unfoldable pub interface_subnets : List Interface → List Text
  unfolding bmc_subnets_of
  interface_subnets [] = []
  interface_subnets (iface ∷ ifaces) =
      let rest = interface_subnets ifaces in
      if iface.is_loopback || not iface.is_up
      then rest
      else elim iface.addrs [ none ↦ rest | some addrs ↦ bmc_subnets_of addrs ++ rest ]

  unfoldable pub or_default : List Text → List Text
  or_default [] = str "192.168.1.0/24" ∷ str "192.168.10.0/24" ∷ str "10.0.1.0/24" ∷ []
  or_default (s ∷ subnets) = s ∷ subnets

  unfoldable pub get_local_subnets : List Text → Result Error (List Text)
  unfolding interface_subnets or_default
  get_local_subnets (r ∷ network_ranges) = ok (r ∷ network_ranges)
  get_local_subnets [] = do
    interfaces ← or_fail m.interfaces no_interfaces
    ok (or_default (interface_subnets interfaces))

  abbrev found : Result Error (List (Server DiscoveryMetadata)) → List (Server DiscoveryMetadata)
  found (ok ss) = ss
  found (err f) = []

  -- The loop over the subnets; a scan that fails adds nothing.
  unfoldable pub scan_subnets : List Text → List (Server DiscoveryMetadata)
  unfolding discover_ipmi discover_redfish
  scan_subnets [] = []
  scan_subnets (subnet ∷ subnets) =
      found (discover_ipmi subnet) ++ (found (discover_redfish subnet) ++ scan_subnets subnets)

  unfoldable pub perform_auto_discovery : List Text → Result Error (List (Server DiscoveryMetadata))
  unfolding get_local_subnets scan_subnets
  perform_auto_discovery network_ranges = do
    subnets ← get_local_subnets network_ranges
    ok (scan_subnets subnets)

  -- The servers, and the configuration that is left; none is a panic.
  unfoldable pub discover_servers :
      ℕ
      → Text
      → Bool
      → List Text
      → List BmcHost
      → Option (List (Server DiscoveryMetadata) × List BmcHost)
  unfolding perform_auto_discovery
  discover_servers now agent_id enabled network_ranges hosts =
      elim (load_static_servers net now agent_id hosts) [
        | none ↦ none
        | some (static_servers, left) ↦
            if enabled
            then elim (perform_auto_discovery network_ranges) [
              | err f ↦ some (static_servers, left)
              | ok ss ↦ some (static_servers ++ filter_duplicates static_servers ss, left)
            ]
            else some (static_servers, left)
      ]

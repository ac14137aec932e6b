-- ===== src/Discovery/Static/Stale.antt =====
-- What one discovery leaves in the configuration for the next.
use conduit_bmc.Base.{
  Option-cases, Text, str, same, Map, lookup, insert, lookup-insert, ok, ℕ, ◌≡◌, refl, sym, ap, ◌∙◌,
  inl, inr, false, Option, none, some, [], ◌∷◌, arith,
}
use conduit_bmc.Types.Endpoints.{BmcControlEndpoint}
use conduit_bmc.Types.Server.{Server, get_primary_control_endpoint}
use conduit_bmc.Types.Discovery.{DiscoveryMetadata, CapabilityInfo, method_static_config}
use conduit_bmc.Discovery.{Network, SerialConsoleInfo}
use conduit_bmc.Discovery.Config.{BmcHost}
use conduit_bmc.Discovery.Metadata.{build_discovery_metadata, capability_info}
use conduit_bmc.Discovery.Static.{
  control_endpoints_of, sol_of, vnc_of, configured, configured_server, metadata_of,
  build_ipmi_endpoint, fall_back_to_ipmi, with_sol, with_console, discovered, discover_console,
  described, write_back, load_static_server,
}

abbrev error_of : Server DiscoveryMetadata → Option Text
error_of s = lookup (str "discovery_error") s.metadata

metadata-configured_server :
    (host : BmcHost) (s : Server DiscoveryMetadata)
    → configured_server host ≡ some s
    → s.metadata ≡ metadata_of host.metadata
unfolding configured_server configured
metadata-configured_server host s h =
    elim (Option-cases (control_endpoints_of host.control_endpoints)) [
      | inl a ↦ absurd (ground (arith, a, h))
      | inr (endpoints, a) ↦ elim (Option-cases (sol_of host.sol_endpoint)) [
        | inl b ↦ absurd (ground (arith, a, b, h))
        | inr (sol, b) ↦ elim (Option-cases (vnc_of host.vnc_endpoint)) [
          | inl c ↦ absurd (ground (arith, a, b, c, h))
          | inr (vnc, c) ↦
              let made : s ≡ configured host endpoints sol vnc = ground (arith, a, b, c, h) in
              ap (λ s. s.metadata) made
        ]
      ]
    ]

error-insert :
    (k v : Text) (m : Map Text)
    → same k (str "discovery_error") ≡ false
    → lookup (str "discovery_error") (insert k v m) ≡ lookup (str "discovery_error") m
error-insert k v m h = rw (lookup-insert k (str "discovery_error") v m, h) refl

error-fall_back :
    (o : Option Text) (e : BmcControlEndpoint) (s : Server DiscoveryMetadata)
    → error_of (fall_back_to_ipmi o e s) ≡ error_of s
unfolding fall_back_to_ipmi same
error-fall_back none e s = refl
error-fall_back (some ep) e s = error-insert (str "sol_fallback") (str "ipmi") s.metadata refl

error-with_sol :
    (net : Network) (info : SerialConsoleInfo) (e : BmcControlEndpoint)
    (s : Server DiscoveryMetadata)
    → error_of (with_sol net info e s) ≡ error_of s
unfolding with_sol
error-with_sol net info e s =
    ground (arith, error-fall_back (build_ipmi_endpoint net e.endpoint) e s)

error-with_console :
    (info : SerialConsoleInfo) (s : Server DiscoveryMetadata)
    → error_of (with_console info s) ≡ error_of s
unfolding with_console
error-with_console info s = ground arith

-- A discovery that succeeds leaves an older error as it is.
error-discovered :
    (net : Network) (e : BmcControlEndpoint) (info : SerialConsoleInfo)
    (s : Server DiscoveryMetadata)
    → error_of (discovered net e (ok info) s) ≡ error_of s
unfolding discovered same
error-discovered net e info s =
    let found = record s { metadata = insert (str "vendor") info.vendor s.metadata } in
    error-with_console info (with_sol net info e found)
    ∙ (error-with_sol net info e found ∙ error-insert (str "vendor") info.vendor s.metadata refl)

-- Every question about a console is answered.
abbrev pub Answers : Network → Type 0
Answers net =
    (endpoint username password : Text)
    → (info : SerialConsoleInfo) × (net.discover_serial_console endpoint username password
        ≡ ok info)

error-discover_console :
    (net : Network) (o : Option BmcControlEndpoint) (s : Server DiscoveryMetadata)
    → Answers net
    → error_of (discover_console net o s) ≡ error_of s
unfolding discover_console
error-discover_console net none s a = refl
error-discover_console net (some e) s a =
    let (info, h) = a e.endpoint e.username e.password in
    ground (arith, h, error-discovered net e info s)

-- What a pass has made: the server before its description, and the host that it was written back to.
loaded :
    (net : Network) (now : ℕ) (agent_id : Text) (host after : BmcHost)
    (s : Server DiscoveryMetadata)
    → load_static_server net now agent_id host ≡ some (s, after)
    → (c : Server DiscoveryMetadata) × (configured_server host ≡ some c)
      × (s ≡ described net now agent_id (discover_console net (get_primary_control_endpoint c) c))
      × (after ≡ write_back (discover_console net (get_primary_control_endpoint c) c) host)
unfolding load_static_server
loaded net now agent_id host after s h = elim (Option-cases (configured_server host)) [
  | inl a ↦ absurd (ground (arith, a, h))
  | inr (c, a) ↦ (c, a, ground (arith, a, h), ground (arith, a, h))
]

reported_errors :
    (net : Network) (now : ℕ) (agent_id message : Text) (s : Server DiscoveryMetadata)
    → error_of s ≡ some message
    → (md : DiscoveryMetadata) × (c : CapabilityInfo) × ((described net now agent_id
          s).discovery_metadata
        ≡ some md)
      × (md.capabilities ≡ some c)
      × (c.discovery_errors ≡ message ∷ [])
unfolding described build_discovery_metadata capability_info
reported_errors net now agent_id message s h = (
  record (build_discovery_metadata net agent_id s method_static_config (str "config.yaml")) {
    discovered_at = now;
  },
  capability_info s,
  refl,
  refl,
  ground (arith, h),
)

-- An error that one discovery has put into a configured host's metadata is reported by the next one as
-- well, although that one finds everything that it asks for.
pub load_static_server-stale :
    (net₁ net₂ : Network) (t₁ t₂ : ℕ) (agent_id message : Text) (host after last : BmcHost)
    (m : Map Text) (s₁ s₂ : Server DiscoveryMetadata)
    → host.metadata ≡ some m
    → load_static_server net₁ t₁ agent_id host ≡ some (s₁, after)
    → lookup (str "discovery_error") s₁.metadata ≡ some message
    → Answers net₂
    → load_static_server net₂ t₂ agent_id after ≡ some (s₂, last)
    → (md : DiscoveryMetadata) × (c : CapabilityInfo) × (s₂.discovery_metadata ≡ some md)
      × (md.capabilities ≡ some c)
      × (c.discovery_errors ≡ message ∷ [])
unfolding described write_back
load_static_server-stale net₁ net₂ t₁ t₂ agent_id message host after last m s₁ s₂ k l₁ failed
      answers l₂ =
    let (c₁, a₁, made₁, left₁) = loaded net₁ t₁ agent_id host after s₁ l₁ in
    let (c₂, a₂, made₂, left₂) = loaded net₂ t₂ agent_id after last s₂ l₂ in
    let found₁ = discover_console net₁ (get_primary_control_endpoint c₁) c₁ in
    let kept₁ : s₁.metadata ≡ found₁.metadata = ap (λ s. s.metadata) made₁ in
    let shared : after.metadata ≡ some found₁.metadata = ground (arith, left₁, k) in
    let read : c₂.metadata ≡ s₁.metadata =
      metadata-configured_server after c₂ a₂ ∙ (ap metadata_of shared ∙ sym kept₁) in
    let old : error_of c₂ ≡ some message = rw read failed in
    let kept₂ = error-discover_console net₂ (get_primary_control_endpoint c₂) c₂ answers ∙ old in
    rw made₂ (
      reported_errors net₂ t₂ agent_id message
        (discover_console net₂ (get_primary_control_endpoint c₂) c₂) kept₂)

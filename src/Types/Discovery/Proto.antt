-- ===== src/Types/Discovery/Proto.antt =====
-- core/types/discovery_proto.go: conversions from and to the protocol's messages.
pub mod RoundTrip
use conduit_bmc.Base.{◌==◌, if◌then◌else◌, Text, same, ℕ, Option, none, some, map}
use mathlib.Core.Option
use conduit_bmc.Types.Discovery.{
  method_unspecified, method_static_config, method_network_scan, method_api_registration,
  method_manual, ProtoMethod, unspecified, static_config, network_scan, api_registration, manual,
  VendorInfo, ProtocolConfig, EndpointDetails, SecurityConfig, NetworkInfo, CapabilityInfo,
  DiscoveryMetadata, ProtoMetadata,
}

unfoldable pub copy_vendor : VendorInfo → VendorInfo
copy_vendor x = record {
  manufacturer = x.manufacturer;
  model = x.model;
  firmware_version = x.firmware_version;
  bmc_version = x.bmc_version;
}

unfoldable pub copy_protocol : ProtocolConfig → ProtocolConfig
copy_protocol x = record {
  primary_protocol = x.primary_protocol;
  primary_version = x.primary_version;
  fallback_protocol = x.fallback_protocol;
  fallback_reason = x.fallback_reason;
  console_type = x.console_type;
  console_path = x.console_path;
  vnc_transport = x.vnc_transport;
}

unfoldable pub copy_endpoints : EndpointDetails → EndpointDetails
copy_endpoints x = record {
  control_endpoint = x.control_endpoint;
  control_scheme = x.control_scheme;
  control_port = x.control_port;
  console_endpoint = x.console_endpoint;
  vnc_endpoint = x.vnc_endpoint;
  vnc_display = x.vnc_display;
}

unfoldable pub copy_security : SecurityConfig → SecurityConfig
copy_security x = record {
  tls_enabled = x.tls_enabled;
  tls_verify = x.tls_verify;
  auth_method = x.auth_method;
  vnc_auth_type = x.vnc_auth_type;
  vnc_password_length = x.vnc_password_length;
  ipmi_cipher_suite = x.ipmi_cipher_suite;
}

unfoldable pub copy_network : NetworkInfo → NetworkInfo
copy_network x = record {
  ip_address = x.ip_address;
  mac_address = x.mac_address;
  network_segment = x.network_segment;
  vlan_id = x.vlan_id;
  reachable = x.reachable;
  latency_ms = x.latency_ms;
}

unfoldable pub copy_capabilities : CapabilityInfo → CapabilityInfo
copy_capabilities x = record {
  supported_features = x.supported_features;
  unsupported_features = x.unsupported_features;
  discovery_errors = x.discovery_errors;
  discovery_warnings = x.discovery_warnings;
}

unfoldable pub convert_discovery_method_to_proto : Text → ProtoMethod
convert_discovery_method_to_proto m =
    if same m method_static_config
    then static_config
    else if same m method_network_scan
    then network_scan
    else if same m method_api_registration
    then api_registration
    else if same m method_manual
    then manual
    else unspecified

unfoldable pub convert_discovery_method_from_proto : ProtoMethod → Text
convert_discovery_method_from_proto static_config = method_static_config
convert_discovery_method_from_proto network_scan = method_network_scan
convert_discovery_method_from_proto api_registration = method_api_registration
convert_discovery_method_from_proto manual = method_manual
convert_discovery_method_from_proto unspecified = method_unspecified

-- A nil pointer stays nil, and so does a part that is nil.
unfoldable pub convert_to_proto : Option DiscoveryMetadata → Option ProtoMetadata
unfolding convert_discovery_method_to_proto copy_vendor copy_protocol copy_endpoints copy_security
    copy_network copy_capabilities
convert_to_proto none = none
convert_to_proto (some dm) = some (record {
  discovery_method = convert_discovery_method_to_proto dm.discovery_method;
  discovered_at = if dm.discovered_at == 0 then none else some dm.discovered_at;
  discovery_source = dm.discovery_source;
  config_source = dm.config_source;
  vendor = Option.map copy_vendor dm.vendor;
  protocol = Option.map copy_protocol dm.protocol;
  endpoints = Option.map copy_endpoints dm.endpoints;
  security = Option.map copy_security dm.security;
  network = Option.map copy_network dm.network;
  capabilities = Option.map copy_capabilities dm.capabilities;
  additional_info = dm.additional_info;
})

-- The time of a timestamp, or the zero time.
unfoldable pub time_of : Option ℕ → ℕ
time_of none = 0
time_of (some t) = t

unfoldable pub convert_discovery_metadata_from_proto :
    Option ProtoMetadata → Option DiscoveryMetadata
unfolding convert_discovery_method_from_proto time_of copy_vendor copy_protocol copy_endpoints
    copy_security copy_network copy_capabilities
convert_discovery_metadata_from_proto none = none
convert_discovery_metadata_from_proto (some p) = some (record {
  discovery_method = convert_discovery_method_from_proto p.discovery_method;
  discovered_at = time_of p.discovered_at;
  discovery_source = p.discovery_source;
  config_source = p.config_source;
  vendor = Option.map copy_vendor p.vendor;
  protocol = Option.map copy_protocol p.protocol;
  endpoints = Option.map copy_endpoints p.endpoints;
  security = Option.map copy_security p.security;
  network = Option.map copy_network p.network;
  capabilities = Option.map copy_capabilities p.capabilities;
  additional_info = p.additional_info;
})

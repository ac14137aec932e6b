-- ===== src/Types/Discovery.antt =====
-- core/types/discovery.go: how a BMC was found and configured. The generated messages of the protocol
-- have the same parts, and share their records here; an int32 is its bit pattern, and a time counts
-- from Go's zero time.
pub mod Proto
use conduit_bmc.Base.{Text, str, Map, ℕ, Bool, Option, List}

abbrev pub method_unspecified : Text
method_unspecified = str "unspecified"

abbrev pub method_static_config : Text
method_static_config = str "static_config"

abbrev pub method_network_scan : Text
method_network_scan = str "network_scan"

abbrev pub method_api_registration : Text
method_api_registration = str "api_registration"

abbrev pub method_manual : Text
method_manual = str "manual"

-- commonv1.DiscoveryMethod.
pub data ProtoMethod : Type 0 where
  unspecified static_config network_scan api_registration manual : ProtoMethod

pub record VendorInfo : Type 0 where
  pub manufacturer : Text
  pub model : Text
  pub firmware_version : Text
  pub bmc_version : Text

pub record ProtocolConfig : Type 0 where
  pub primary_protocol : Text
  pub primary_version : Text
  pub fallback_protocol : Text
  pub fallback_reason : Text
  pub console_type : Text
  pub console_path : Text
  pub vnc_transport : Text

pub record EndpointDetails : Type 0 where
  pub control_endpoint : Text
  pub control_scheme : Text
  pub control_port : ℕ
  pub console_endpoint : Text
  pub vnc_endpoint : Text
  pub vnc_display : ℕ

pub record SecurityConfig : Type 0 where
  pub tls_enabled : Bool
  pub tls_verify : Bool
  pub auth_method : Text
  pub vnc_auth_type : Text
  pub vnc_password_length : ℕ
  pub ipmi_cipher_suite : Text

pub record NetworkInfo : Type 0 where
  pub ip_address : Text
  pub mac_address : Text
  pub network_segment : Text
  pub vlan_id : Text
  pub reachable : Bool
  pub latency_ms : ℕ

pub record CapabilityInfo : Type 0 where
  pub supported_features : List Text
  pub unsupported_features : List Text
  pub discovery_errors : List Text
  pub discovery_warnings : List Text

pub record DiscoveryMetadata : Type 0 where
  pub discovery_method : Text
  pub discovered_at : ℕ
  pub discovery_source : Text
  pub config_source : Text
  pub vendor : Option VendorInfo
  pub protocol : Option ProtocolConfig
  pub endpoints : Option EndpointDetails
  pub security : Option SecurityConfig
  pub network : Option NetworkInfo
  pub capabilities : Option CapabilityInfo
  pub additional_info : Map Text

-- commonv1.DiscoveryMetadata.
pub record ProtoMetadata : Type 0 where
  pub discovery_method : ProtoMethod
  pub discovered_at : Option ℕ
  pub discovery_source : Text
  pub config_source : Text
  pub vendor : Option VendorInfo
  pub protocol : Option ProtocolConfig
  pub endpoints : Option EndpointDetails
  pub security : Option SecurityConfig
  pub network : Option NetworkInfo
  pub capabilities : Option CapabilityInfo
  pub additional_info : Map Text

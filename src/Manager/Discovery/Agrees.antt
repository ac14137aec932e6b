-- ===== src/Manager/Discovery/Agrees.antt =====
-- The manager's conversions and those of core/types are the same functions.
use conduit_bmc.Base.{ℕ, ◌≡◌, refl, Option, none, some}
use conduit_bmc.Types.Discovery.{
  DiscoveryMetadata, ProtoMetadata, ProtoMethod, unspecified, static_config, network_scan,
  api_registration, manual,
}
use conduit_bmc.Types.Discovery.Proto
use conduit_bmc.Types.Discovery.Proto.{
  convert_to_proto, convert_discovery_metadata_from_proto, convert_discovery_method_to_proto,
  convert_discovery_method_from_proto,
}
use conduit_bmc.Manager.Discovery.{
  convert_models_to_proto_discovery_metadata, convert_proto_to_models_discovery_metadata,
  convert_models_discovery_method_to_proto, convert_proto_discovery_method_to_models, time_of,
  copy_vendor, copy_protocol, copy_endpoints, copy_security, copy_network, copy_capabilities,
}

to_agrees :
    (o : Option DiscoveryMetadata)
    → convert_models_to_proto_discovery_metadata o ≡ convert_to_proto o
unfolding convert_models_to_proto_discovery_metadata convert_to_proto copy_vendor copy_protocol
    copy_endpoints copy_security copy_network copy_capabilities Proto.copy_vendor
    Proto.copy_protocol Proto.copy_endpoints Proto.copy_security Proto.copy_network
    Proto.copy_capabilities convert_models_discovery_method_to_proto
    convert_discovery_method_to_proto
to_agrees none = refl
to_agrees (some dm) = refl

method_agrees :
    (m : ProtoMethod)
    → convert_proto_discovery_method_to_models m ≡ convert_discovery_method_from_proto m
unfolding convert_proto_discovery_method_to_models convert_discovery_method_from_proto
method_agrees unspecified = refl
method_agrees static_config = refl
method_agrees network_scan = refl
method_agrees api_registration = refl
method_agrees manual = refl

time_agrees : (o : Option ℕ) → time_of o ≡ Proto.time_of o
unfolding time_of Proto.time_of
time_agrees none = refl
time_agrees (some t) = refl

from_agrees :
    (o : Option ProtoMetadata)
    → convert_proto_to_models_discovery_metadata o ≡ convert_discovery_metadata_from_proto o
unfolding convert_proto_to_models_discovery_metadata convert_discovery_metadata_from_proto
    copy_vendor copy_protocol copy_endpoints copy_security copy_network copy_capabilities
    Proto.copy_vendor Proto.copy_protocol Proto.copy_endpoints Proto.copy_security
    Proto.copy_network Proto.copy_capabilities
from_agrees none = refl
from_agrees (some p) = rw (method_agrees p.discovery_method, time_agrees p.discovered_at) refl

-- The manager's copy of the two conversions does the same as the one that the gateway and the agent
-- use, on every value.
pub conversions_agree :
    (dm : Option DiscoveryMetadata) (p : Option ProtoMetadata)
    → (convert_models_to_proto_discovery_metadata dm ≡ convert_to_proto dm)
      × (convert_proto_to_models_discovery_metadata p ≡ convert_discovery_metadata_from_proto p)
conversions_agree dm p = (to_agrees dm, from_agrees p)

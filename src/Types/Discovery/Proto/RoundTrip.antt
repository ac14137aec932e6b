-- ===== src/Types/Discovery/Proto/RoundTrip.antt =====
-- What a conversion to the protocol and back keeps.
use conduit_bmc.Base.{
  ◌==◌, if◌then◌else◌, Text, same, ℕ, ◌≡◌, refl, ap, ◌∙◌, ◌≢◌, ◌⊎◌, inl, inr, Option, none, some,
  arith,
}
use conduit_bmc.Types.Discovery.{
  method_unspecified, method_static_config, method_network_scan, method_api_registration,
  method_manual, DiscoveryMetadata, ProtoMetadata, ProtoMethod, unspecified, static_config,
  network_scan, api_registration, manual,
}
use conduit_bmc.Types.Discovery.Proto.{
  convert_to_proto, convert_discovery_metadata_from_proto, convert_discovery_method_to_proto,
  convert_discovery_method_from_proto, time_of, copy_vendor, copy_protocol, copy_endpoints,
  copy_security, copy_network, copy_capabilities,
}
use mathlib.Core.Option

-- One of the five methods that the constants name.
abbrev pub IsMethod : Text → Type 0
IsMethod m =
    (m ≡ method_unspecified)
    ⊎ (m ≡ method_static_config)
    ⊎ (m ≡ method_network_scan)
    ⊎ (m ≡ method_api_registration)
    ⊎ (m ≡ method_manual)

method_kept :
    (m : Text)
    → IsMethod m
    → convert_discovery_method_from_proto (convert_discovery_method_to_proto m) ≡ m
unfolding convert_discovery_method_from_proto convert_discovery_method_to_proto same
method_kept m (inl e) = rw e refl
method_kept m (inr (inl e)) = rw e refl
method_kept m (inr (inr (inl e))) = rw e refl
method_kept m (inr (inr (inr (inl e)))) = rw e refl
method_kept m (inr (inr (inr (inr e)))) = rw e refl

method_read :
    (m : ProtoMethod)
    → convert_discovery_method_to_proto (convert_discovery_method_from_proto m) ≡ m
unfolding convert_discovery_method_from_proto convert_discovery_method_to_proto same
method_read unspecified = refl
method_read static_config = refl
method_read network_scan = refl
method_read api_registration = refl
method_read manual = refl

part_kept :
    {A : Type 0} (f : A → A) (o : Option A)
    → ((x : A) → f x ≡ x)
    → Option.map f (Option.map f o) ≡ o
part_kept f none h = refl
part_kept f (some x) h = ap some (ap f (h x) ∙ h x)

time_kept : (t : ℕ) → time_of (if t == 0 then none else some t) ≡ t
unfolding time_of
time_kept t = ground arith

stamp_kept : (o : Option ℕ) → o ≢ some 0 → (if time_of o == 0 then none else some (time_of o)) ≡ o
unfolding time_of
stamp_kept none h = refl
stamp_kept (some t) h = ground arith

module _ (dm : DiscoveryMetadata) where
  -- Metadata with one of the five methods are the same after a conversion to the protocol and back.
  pub from-to_proto :
      IsMethod dm.discovery_method
      → convert_discovery_metadata_from_proto (convert_to_proto (some dm)) ≡ some dm
  unfolding convert_to_proto convert_discovery_metadata_from_proto copy_vendor copy_protocol
      copy_endpoints copy_security copy_network copy_capabilities
  from-to_proto h = λ i. some (record dm {
    discovery_method = method_kept dm.discovery_method h i;
    discovered_at = time_kept dm.discovered_at i;
    vendor = part_kept copy_vendor dm.vendor (λ x. refl) i;
    protocol = part_kept copy_protocol dm.protocol (λ x. refl) i;
    endpoints = part_kept copy_endpoints dm.endpoints (λ x. refl) i;
    security = part_kept copy_security dm.security (λ x. refl) i;
    network = part_kept copy_network dm.network (λ x. refl) i;
    capabilities = part_kept copy_capabilities dm.capabilities (λ x. refl) i;
  })

module _ (p : ProtoMetadata) where
  -- A message is the same after a conversion from the protocol and back, unless it holds the zero time.
  pub to-from_proto :
      p.discovered_at ≢ some 0
      → convert_to_proto (convert_discovery_metadata_from_proto (some p)) ≡ some p
  unfolding convert_to_proto convert_discovery_metadata_from_proto copy_vendor copy_protocol
      copy_endpoints copy_security copy_network copy_capabilities
  to-from_proto h = λ i. some (record p {
    discovery_method = method_read p.discovery_method i;
    discovered_at = stamp_kept p.discovered_at h i;
    vendor = part_kept copy_vendor p.vendor (λ x. refl) i;
    protocol = part_kept copy_protocol p.protocol (λ x. refl) i;
    endpoints = part_kept copy_endpoints p.endpoints (λ x. refl) i;
    security = part_kept copy_security p.security (λ x. refl) i;
    network = part_kept copy_network p.network (λ x. refl) i;
    capabilities = part_kept copy_capabilities p.capabilities (λ x. refl) i;
  })

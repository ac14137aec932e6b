-- ===== src/Discovery/Scan/Filtered.antt =====
-- Servers that are configured and found as well.
use conduit_bmc.Base.{
  if◌then◌else◌, Option-cases, Text, same, Map, lookup, insert, lookup-insert, ◌≡◌, refl, inl, inr,
  Bool, true, false, none, some, List, [], ◌∷◌, arith,
}
use conduit_bmc.Types.Server.{Server, get_primary_control_endpoint}
use conduit_bmc.Types.Discovery.{DiscoveryMetadata}
use conduit_bmc.Discovery.Static.{
  static_endpoints, is_static, not_static, primary_address, filter_duplicates,
}

-- A server of the list has the primary address.
abbrev pub has_address : List (Server DiscoveryMetadata) → Text → Bool
has_address [] a = false
has_address (s ∷ ss) a = elim (get_primary_control_endpoint s) [
  | some e ↦ if same e.endpoint a then true else has_address ss a
  | none ↦ has_address ss a
]

-- The servers of the second list whose primary address none of the first list has.
abbrev pub others :
    List (Server DiscoveryMetadata)
    → List (Server DiscoveryMetadata)
    → List (Server DiscoveryMetadata)
others ss [] = []
others ss (t ∷ ts) = if has_address ss (primary_address t) then others ss ts else t ∷ others ss ts

is_static-static_endpoints :
    (ss : List (Server DiscoveryMetadata)) (m : Map Bool) (a : Text)
    → is_static (static_endpoints ss m) a ≡ (if has_address ss a then true else is_static m a)
unfolding static_endpoints is_static
is_static-static_endpoints [] m a = refl
is_static-static_endpoints (s ∷ ss) m a = elim (Option-cases (get_primary_control_endpoint s)) [
  | inl h ↦ ground (arith, h, is_static-static_endpoints ss m a)
  | inr (e, h) ↦ ground (
    arith,
    h,
    is_static-static_endpoints ss (insert e.endpoint true m) a,
    lookup-insert e.endpoint a true m,
  )
]

none_static : (a : Text) → is_static [] a ≡ false
unfolding is_static lookup
none_static a = refl

-- `filterDuplicates` keeps, in their order, exactly the discovered servers whose primary address is no
-- static server's primary address; a server without endpoints has the empty address.
pub filter_duplicates-others :
    (static_servers discovered_servers : List (Server DiscoveryMetadata))
    → filter_duplicates static_servers discovered_servers ≡ others static_servers discovered_servers
unfolding filter_duplicates not_static
filter_duplicates-others ss [] = refl
filter_duplicates-others ss (t ∷ ts) = ground (
  arith,
  filter_duplicates-others ss ts,
  is_static-static_endpoints ss [] (primary_address t),
  none_static (primary_address t),
)

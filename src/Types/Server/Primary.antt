-- ===== src/Types/Server/Primary.antt =====
-- Which endpoint is the primary one.
use conduit_bmc.Base.{
  Bool-cases, All, Text, same, is_empty, same_iff, ◌≡◌, refl, ◌⊎◌, inl, inr, true, false, Option,
  none, some, List, [], ◌∷◌,
}
use conduit_bmc.Types.Endpoints.{BmcControlEndpoint}
use conduit_bmc.Types.Server.{Server, of_protocol, first_unless, get_primary_control_endpoint}

-- `e` stands in the list, and no endpoint before it has the protocol.
pub data IsFirst (protocol : Text) (e : BmcControlEndpoint) : List BmcControlEndpoint → Type 0 where
  here : {es : List BmcControlEndpoint} → IsFirst protocol e (e ∷ es)
  behind :
      {d : BmcControlEndpoint} {es : List BmcControlEndpoint}
      → same d.bmc_type protocol ≡ false
      → IsFirst protocol e es
      → IsFirst protocol e (d ∷ es)

abbrev pub HasNone : Text → List BmcControlEndpoint → Type 0
HasNone protocol es = All (λ e. same e.bmc_type protocol ≡ false) es

-- The primary endpoint, by cases.
pub data IsPrimary {D : Type 0} (s : Server D) : Option BmcControlEndpoint → Type 0 where
  no_endpoint : s.control_endpoints ≡ [] → IsPrimary s none
  preferred :
      (e : BmcControlEndpoint)
      → is_empty s.primary_protocol ≡ false
      → e.bmc_type ≡ s.primary_protocol
      → IsFirst s.primary_protocol e s.control_endpoints
      → IsPrimary s (some e)
  fallback :
      (e : BmcControlEndpoint) (es : List BmcControlEndpoint)
      → s.control_endpoints ≡ e ∷ es
      → (is_empty s.primary_protocol ≡ true) ⊎ HasNone s.primary_protocol s.control_endpoints
      → IsPrimary s (some e)

data Search (protocol : Text) (es : List BmcControlEndpoint)
    : Option BmcControlEndpoint → Type 0 where
  found :
      (e : BmcControlEndpoint)
      → e.bmc_type ≡ protocol
      → IsFirst protocol e es
      → Search protocol es (some e)
  missed : HasNone protocol es → Search protocol es none

Search-behind :
    (protocol : Text) (d : BmcControlEndpoint) (es : List BmcControlEndpoint)
    (o : Option BmcControlEndpoint)
    → same d.bmc_type protocol ≡ false
    → Search protocol es o
    → Search protocol (d ∷ es) o
Search-behind protocol d es o h (found e t f) = found e t (behind h f)
Search-behind protocol d es o h (missed n) = missed (h, n)

of_protocol-Search :
    (protocol : Text) (es : List BmcControlEndpoint) → Search protocol es (of_protocol protocol es)
unfolding of_protocol
of_protocol-Search protocol [] = missed tt
of_protocol-Search protocol (d ∷ es) = elim (Bool-cases (same d.bmc_type protocol)) [
  | inl t ↦ rw t (found d ((same_iff d.bmc_type protocol).0 t) here)
  | inr f ↦
      rw f
        (Search-behind protocol d es (of_protocol protocol es) f (of_protocol-Search protocol es))
]

module _ {D : Type 0} (s : Server D) where
  among :
      (es : List BmcControlEndpoint) (o : Option BmcControlEndpoint)
      → s.control_endpoints ≡ es
      → is_empty s.primary_protocol ≡ false
      → Search s.primary_protocol es o
      → IsPrimary s (first_unless o es)
  unfolding first_unless
  among [] o c p w = no_endpoint c
  among (e ∷ es) o c p (found d t f) = preferred d p t (rw c f)
  among (e ∷ es) o c p (missed n) = fallback e es c (inr (rw c n))

  without :
      (es : List BmcControlEndpoint)
      → s.control_endpoints ≡ es
      → is_empty s.primary_protocol ≡ true
      → IsPrimary s (first_unless none es)
  unfolding first_unless
  without [] c p = no_endpoint c
  without (e ∷ es) c p = fallback e es c (inl p)

  -- `GetPrimaryControlEndpoint` returns nothing only for a server without endpoints; else the first
  -- endpoint of the primary protocol, if that is set and some endpoint has it, and else the first.
  pub get_primary_control_endpoint-IsPrimary : IsPrimary s (get_primary_control_endpoint s)
  unfolding get_primary_control_endpoint
  get_primary_control_endpoint-IsPrimary = elim (Bool-cases (is_empty s.primary_protocol)) [
    | inl t ↦ rw t (without s.control_endpoints refl t)
    | inr f ↦ rw f (
        among s.control_endpoints (of_protocol s.primary_protocol s.control_endpoints) refl f
          (of_protocol-Search s.primary_protocol s.control_endpoints))
  ]

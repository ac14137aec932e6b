-- ===== src/Manager/Status/Counted.antt =====
-- The servers that the system's status lists under the gateways.
use conduit_bmc.Base.{
  if◌then◌else◌, length, All, Text, same, same_iff, ℕ, suc, ◌+◌, ◌^◌, ◌≤◌, ◌<◌, ◌≡◌, refl, ap, ◌∙◌,
  false, List, [], ◌∷◌, map, arith,
}
use conduit_bmc.Types.Server.{Server}
use conduit_bmc.Types.Discovery.{DiscoveryMetadata}
use conduit_bmc.Manager.Models.{RegionalGateway, ServerLocation}
use conduit_bmc.Manager.Status.{
  ServerWithBmc, GatewayStatus, gateway_servers, status_of, system_status, with_bmc, server_map,
  entry_of, count_active,
}

-- No two gateways have one id.
abbrev pub HasDistinctIds : List RegionalGateway → Type 0
HasDistinctIds [] = Unit
HasDistinctIds (g ∷ gs) = All (λ h. same h.id g.id ≡ false) gs × HasDistinctIds gs

abbrev pub total_served : List GatewayStatus → ℕ
total_served [] = 0
total_served (g ∷ gs) = length g.servers + total_served gs

-- How many of the gateways have the id.
abbrev matching : Text → List RegionalGateway → ℕ
matching k [] = 0
matching k (g ∷ gs) = let rest = matching k gs in if same k g.id then suc rest else rest

none_matching :
    (k : Text) (g : RegionalGateway) (gs : List RegionalGateway)
    → All (λ h. same h.id g.id ≡ false) gs
    → k ≡ g.id
    → matching k gs ≡ 0
none_matching k g [] a h = refl
none_matching k g (j ∷ gs) (a, b) h =
    ground (arith, none_matching k g gs b h, same_iff k j.id, same_iff j.id g.id, a, h)

one_matching : (k : Text) (gs : List RegionalGateway) → HasDistinctIds gs → matching k gs ≤ 1
one_matching k [] d = omega arith
one_matching k (g ∷ gs) (a, d) =
    ground (arith, one_matching k gs d, same_iff k g.id, none_matching k g gs a)

served_cons :
    (s : ServerWithBmc) (ss : List ServerWithBmc) (gs : List RegionalGateway)
    → total_served (map (status_of (s ∷ ss)) gs)
      ≡ matching s.regional_gateway_id gs + total_served (map (status_of ss) gs)
unfolding status_of gateway_servers
served_cons s ss [] = refl
served_cons s ss (g ∷ gs) = ground (arith, served_cons s ss gs)

served_nil : (gs : List RegionalGateway) → total_served (map (status_of []) gs) ≡ 0
unfolding status_of gateway_servers
served_nil [] = refl
served_nil (g ∷ gs) = omega (arith, served_nil gs)

served_le :
    (ss : List ServerWithBmc) (gs : List RegionalGateway)
    → HasDistinctIds gs
    → total_served (map (status_of ss) gs) ≤ length ss
served_le [] gs d = rw (served_nil gs) (omega arith)
served_le (s ∷ ss) gs d =
    omega (arith, served_cons s ss gs, one_matching s.regional_gateway_id gs d, served_le ss gs d)

length-map {ℓ κ} :
    {A : Type ℓ} {B : Type κ} (f : A → B) (xs : List A) → length (map f xs) ≡ length xs
length-map f [] = refl
length-map f (x ∷ xs) = ap suc (length-map f xs)

active_le : (now : ℕ) (gs : List RegionalGateway) → count_active now gs ≤ length gs
unfolding count_active
active_le now [] = omega arith
active_le now (g ∷ gs) = ground (arith, active_le now gs)

-- When the gateways have distinct ids, the status lists no server under two gateways, so that the
-- servers under all gateways are at most the stored locations; and of fewer than 2^32 gateways at most
-- all are active.
pub system_status_counts :
    (go_version : Text) (start_time now later : ℕ) (gateways : List RegionalGateway)
    (locations : List ServerLocation) (servers : List (Server DiscoveryMetadata))
    → HasDistinctIds gateways
    → length gateways < 2 ^ 32
    → let status = system_status go_version start_time now later gateways locations servers in
      (total_served status.gateways ≤ length locations)
      × (length status.servers ≡ length locations)
      × (status.active_gateways ≤ status.total_gateways)
unfolding system_status
system_status_counts go_version start_time now later gateways locations servers d l =
    let all_servers = map (with_bmc (server_map servers [])) locations in
    let merged = length-map (with_bmc (server_map servers [])) locations in
    (
      omega (arith, served_le all_servers gateways d, merged),
      length-map entry_of all_servers ∙ merged,
      omega (arith, active_le now gateways, l),
    )

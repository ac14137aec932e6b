-- ===== src/Agents.antt =====
-- gateway/internal/agent/registry.go: the agents that have registered with a gateway, by their ids.
pub mod Laws
mod Tests
use conduit_bmc.Base.{
  ℕ, ◌+◌, ltb, if◌then◌else◌, Option, none, some, List, [], ◌∷◌, map, Text, str, same, Map, lookup,
  insert, delete, length,
}

pub record Info : Type 0 where
  pub id : Text
  pub datacenter_id : Text
  pub endpoint : Text
  pub last_seen : ℕ
  pub status : Text

-- The registry owns its entries: what `Get` hands out is read and not written by its callers.
abbrev pub Registry : Type 0
Registry = Map Info

abbrev pub new_registry : Registry
new_registry = []

unfoldable pub register : Info → Registry → Registry
register info r = insert info.id (record info { status = str "active" }) r

unfoldable pub get : Text → Registry → Option Info
get agent_id r = lookup agent_id r

touch : Text → ℕ → Registry → Option Info → Registry
touch agent_id timestamp r none = r
touch agent_id timestamp r (some agent) = insert agent_id (record agent { last_seen = timestamp }) r

unfoldable pub update_last_seen : Text → ℕ → Registry → Registry
unfolding touch
update_last_seen agent_id timestamp r = touch agent_id timestamp r (lookup agent_id r)

unfoldable pub list : Registry → List Info
list [] = []
list ((k, agent) ∷ r) = agent ∷ list r

unfoldable pub count : Registry → ℕ
count r = length r

unfoldable pub remove : Text → Registry → Registry
remove agent_id r = delete agent_id r

-- The body of the loop of `Cleanup`.
unfoldable pub mark_stale : ℕ → ℕ → Info → Info
mark_stale now threshold agent =
    if ltb (agent.last_seen + threshold) now then record agent { status = str "stale" } else agent

unfoldable pub cleanup : ℕ → ℕ → Registry → Registry
cleanup now threshold [] = []
cleanup now threshold ((k, agent) ∷ r) =
    (k, mark_stale now threshold agent) ∷ cleanup now threshold r

unfoldable pub get_by_datacenter : Text → Registry → List Info
get_by_datacenter dc [] = []
get_by_datacenter dc ((k, agent) ∷ r) =
    let rest = get_by_datacenter dc r in if same agent.datacenter_id dc then agent ∷ rest else rest

-- ===== src/Agents/Laws.antt =====
-- What the registry holds after each operation.
use conduit_bmc.Base.{
  ℕ, ◌+◌, ◌<◌, ◌≡◌, refl, if◌then◌else◌, some, [], ◌∷◌, Text, str, same, same_iff, same_refl, All,
  lookup, lookup-insert, arith, Option-cases, inl, inr,
}
use conduit_bmc.Agents.{
  Info, Registry, register, get, update_last_seen, mark_stale, cleanup, get_by_datacenter,
}
use mathlib.Core.Option

-- Registering makes the agent active and touches no other entry.
pub get-register :
    (info : Info) (j : Text) (r : Registry)
    → get j (register info r)
      ≡ (if same info.id j then some (record info { status = str "active" }) else get j r)
unfolding get register
get-register info j r = lookup-insert info.id j _ r

abbrev pub seen_at : ℕ → Info → Info
seen_at t agent = record agent { last_seen = t }

-- A heartbeat changes the time at which a known agent was last seen, and nothing else: an agent that
-- is not registered stays so, and a stale agent stays stale.
pub get-update_last_seen :
    (k j : Text) (t : ℕ) (r : Registry)
    → get j (update_last_seen k t r)
      ≡ (if same k j then Option.map (seen_at t) (get j r) else get j r)
unfolding get update_last_seen
get-update_last_seen k j t r = elim (Option-cases (lookup k r)) [
  | inl e ↦ ground (arith, e, same_iff k j)
  | inr (agent, e) ↦ ground (arith, e, same_iff k j, lookup-insert k j (seen_at t agent) r)
]

pub get-cleanup :
    (now threshold : ℕ) (j : Text) (r : Registry)
    → get j (cleanup now threshold r) ≡ Option.map (mark_stale now threshold) (get j r)
unfolding get cleanup lookup
get-cleanup now threshold j [] = refl
get-cleanup now threshold j ((k, agent) ∷ r) = ground (arith, get-cleanup now threshold j r)

-- A registered agent that was last seen more than the threshold ago is marked stale by `Cleanup`, and
-- is still stale after its next heartbeat, which only changes the time.
pub stale_until_registered :
    (k : Text) (now threshold t : ℕ) (r : Registry) (agent : Info)
    → get k r ≡ some agent
    → agent.last_seen + threshold < now
    → get k (update_last_seen k t (cleanup now threshold r))
      ≡ some (record agent { last_seen = t; status = str "stale" })
unfolding mark_stale
stale_until_registered k now threshold t r agent e h = ground (
  arith,
  e,
  same_refl k,
  get-update_last_seen k k t (cleanup now threshold r),
  get-cleanup now threshold k r,
)

-- `GetByDatacenter` returns agents of that datacenter only.
pub get_by_datacenter-All :
    (dc : Text) (r : Registry) → All (λ agent. agent.datacenter_id ≡ dc) (get_by_datacenter dc r)
unfolding get_by_datacenter
get_by_datacenter-All dc [] = tt
get_by_datacenter-All dc ((k, agent) ∷ r) =
    ground (arith, same_iff agent.datacenter_id dc, get_by_datacenter-All dc r)

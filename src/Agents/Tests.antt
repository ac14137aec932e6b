-- ===== src/Agents/Tests.antt =====
-- The registry's theorems at concrete inputs.
use conduit_bmc.Base.{◌≡◌, refl, some, [], ◌∷◌, str, same, lookup, arith}
use conduit_bmc.Agents.{Info, Registry, get, update_last_seen, cleanup}
use conduit_bmc.Agents.Laws.{stale_until_registered}

abbrev rack : Info
rack = record {
  id = str "agent-1";
  datacenter_id = str "dc";
  endpoint = str "http://h:1";
  last_seen = 10;
  status = str "active";
}

abbrev racks : Registry
racks = (str "agent-1", rack) ∷ []

known_rack : get (str "agent-1") racks ≡ some rack
unfolding get lookup same
known_rack = refl

stale_until_registered_example :
    get (str "agent-1") (update_last_seen (str "agent-1") 99 (cleanup 50 30 racks))
    ≡ some (record rack { last_seen = 99; status = str "stale" })
stale_until_registered_example =
    stale_until_registered (str "agent-1") 50 30 99 racks rack known_rack (omega arith)

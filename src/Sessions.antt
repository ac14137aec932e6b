-- ===== src/Sessions.antt =====
-- gateway/internal/session/store.go: the web sessions behind the cookies of the consoles. The store
-- owns its sessions; `time.Now` is an argument.
pub mod Kept
pub mod History
mod Tests
use conduit_bmc.Base.{
  ℕ, ◌+◌, ltb, if◌then◌else◌, Bool, true, false, ◌&&◌, not, Option, none, some, List, [], ◌∷◌,
  Result, ok, err, Text, same, Map, lookup, insert, delete,
}

pub record WebSession : Type 0 where
  pub id : Text
  pub sol_session_id : Text
  pub vnc_session_id : Text
  pub customer_jwt : Text
  pub created_at : ℕ
  pub last_activity_at : ℕ
  pub expires_at : ℕ
  pub token_expires_at : ℕ
  pub token_renewal_at : ℕ
  pub customer_id : Text
  pub server_id : Text

pub data Error : Type 0 where
  session_not_found session_expired : Error

abbrev pub Store : Type 0
Store = Map WebSession

abbrev pub new_store : Store
new_store = []

unfoldable pub create : WebSession → Store → Store
create s r = insert s.id s r

-- `time.Now().After(session.ExpiresAt)`
abbrev pub expired : ℕ → WebSession → Bool
expired now s = ltb s.expires_at now

unfoldable pub live : ℕ → WebSession → Result Error WebSession
live now s = if expired now s then err session_expired else ok s

unfoldable pub get : ℕ → Text → Store → Result Error WebSession
get now id r = elim (lookup id r) [ none ↦ err session_not_found | some s ↦ live now s ]

unfoldable pub update : WebSession → Store → Result Error Store
update s r = elim (lookup s.id r) [ none ↦ err session_not_found | some old ↦ ok (insert s.id s r) ]

unfoldable pub delete_session : Text → Store → Store
delete_session id r = delete id r

unfoldable pub update_activity : ℕ → Text → Store → Result Error Store
update_activity now id r = elim (lookup id r) [
  | none ↦ err session_not_found
  | some s ↦ ok (insert id (record s { last_activity_at = now }) r)
]

unfoldable pub get_by_sol_session_id : ℕ → Text → Store → Result Error WebSession
get_by_sol_session_id now id [] = err session_not_found
get_by_sol_session_id now id ((k, s) ∷ r) =
    let rest = get_by_sol_session_id now id r in
    if same s.sol_session_id id then live now s else rest

unfoldable pub get_by_vnc_session_id : ℕ → Text → Store → Result Error WebSession
get_by_vnc_session_id now id [] = err session_not_found
get_by_vnc_session_id now id ((k, s) ∷ r) =
    let rest = get_by_vnc_session_id now id r in
    if same s.vnc_session_id id then live now s else rest

unfoldable pub needs_renewal : ℕ → WebSession → Bool
needs_renewal now s =
    not (expired now s) && (ltb s.token_renewal_at now && ltb now s.token_expires_at)

unfoldable pub get_sessions_needing_renewal : ℕ → Store → List WebSession
get_sessions_needing_renewal now [] = []
get_sessions_needing_renewal now ((k, s) ∷ r) =
    let rest = get_sessions_needing_renewal now r in if needs_renewal now s then s ∷ rest else rest

-- The store that is left, and the number of sessions deleted.
unfoldable pub delete_expired : ℕ → Store → ℕ × Store
delete_expired now [] = (0, [])
delete_expired now ((k, s) ∷ r) =
    let (deleted, rest) = delete_expired now r in
    if expired now s then (deleted + 1, rest) else (deleted, (k, s) ∷ rest)

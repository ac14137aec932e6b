-- ===== src/Web/Middleware.antt =====
-- gateway/internal/session/middleware.go. The store is read and then updated; the error that
-- UpdateActivity returns is not looked at.
use conduit_bmc.Base.{Result-cases, Text, ok, err, ℕ, ◌≡◌, ◌↔◌, inl, inr, Option, none, some, arith}
use conduit_bmc.Sessions
use conduit_bmc.Sessions.{WebSession, Store, session_not_found, session_expired}
use conduit_bmc.Web.{Request}
use conduit_bmc.Web.Cookies.{get_session_id_from_request}

-- 401, which clears the cookie when the session has expired, or the next handler with the session.
pub data Outcome : Type 0 where
  session_required session_expired_cleared invalid_session : Outcome
  next : WebSession → Outcome

abbrev pub touched : ℕ → Text → Store → Store
touched now id store = elim (Sessions.update_activity now id store) [
  | ok after ↦ after
  | err f ↦ store
]

unfoldable pub require_session : ℕ → ℕ → Request → Store → Outcome × Store
require_session now later r store = elim (get_session_id_from_request r) [
  | err f ↦ (session_required, store)
  | ok id ↦ elim (Sessions.get now id store) [
    | err session_expired ↦ (session_expired_cleared, store)
    | err session_not_found ↦ (invalid_session, store)
    | ok s ↦ (next s, touched later id store)
  ]
]

-- The session that the next handler is called with, if there is one.
unfoldable pub optional_session : ℕ → ℕ → Request → Store → Option WebSession × Store
optional_session now later r store = elim (get_session_id_from_request r) [
  | err f ↦ (none, store)
  | ok id ↦ elim (Sessions.get now id store) [
    | err f ↦ (none, store)
    | ok s ↦ (some s, touched later id store)
  ]
]

-- Whatever the request and the store, `OptionalSession` calls the next handler with a session exactly
-- when `RequireSession` calls it with that session, and both leave the same store.
pub require-optional_session_iff :
    (now later : ℕ) (r : Request) (store after : Store) (s : WebSession)
    → (require_session now later r store ≡ (next s, after))
      ↔ (optional_session now later r store ≡ (some s, after))
unfolding require_session optional_session
require-optional_session_iff now later r store after s =
    elim (Result-cases (get_session_id_from_request r)) [
      | inr (f, a) ↦ ground (arith, a)
      | inl (id, a) ↦ elim (Result-cases (Sessions.get now id store)) [
        | inl (t, b) ↦ ground (arith, a, b)
        | inr (session_expired, b) ↦ ground (arith, a, b)
        | inr (session_not_found, b) ↦ ground (arith, a, b)
      ]
    ]

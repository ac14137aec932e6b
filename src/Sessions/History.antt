-- ===== src/Sessions/History.antt =====
-- What the store says of one session after any calls.
use conduit_bmc.Base.{
  ltb, if◌then◌else◌, Option-cases, Text, same, same_iff, lookup, lookup-insert, lookup-delete,
  Result, ok, err, ℕ, ◌≡◌, refl, ap, ◌∙◌, inl, inr, Option, none, some, List, [], ◌∷◌, arith,
}
use conduit_bmc.Sessions.{
  WebSession, Error, session_not_found, session_expired, Store, new_store, create, live, get,
  update, delete_session, update_activity,
}
use conduit_bmc.Sessions.Kept.{
  IsStore, Op, creates, updates, deletes, touches, cleans, apply, run, apply-IsStore,
  unless_expired, lookup-delete_expired,
}

-- What a call does to the session with the id `k`, of which alone it is told: a creation replaces it, an
-- update replaces it only if it is there, a deletion removes it, activity changes its last time, and a
-- cleaning removes it once it has expired.
abbrev pub after_call : Text → Op → Option WebSession → Option WebSession
after_call k (creates s) o = if same s.id k then some s else o
after_call k (updates s) none = none
after_call k (updates s) (some old) = if same s.id k then some s else some old
after_call k (deletes id) o = if same id k then none else o
after_call k (touches now id) none = none
after_call k (touches now id) (some s) =
    if same id k then some (record s { last_activity_at = now }) else some s
after_call k (cleans now) o = unless_expired now o

abbrev pub history : Text → List Op → Option WebSession → Option WebSession
history k [] o = o
history k (c ∷ cs) o = history k cs (after_call k c o)

-- What `Get` answers about a session.
abbrev pub answer : ℕ → Option WebSession → Result Error WebSession
answer now none = err session_not_found
answer now (some s) = if ltb s.expires_at now then err session_expired else ok s

lookup-apply :
    (k : Text) (c : Op) (r : Store) → IsStore r → lookup k (apply c r) ≡ after_call k c (lookup k r)
unfolding create update delete_session update_activity
lookup-apply k (creates s) r w = lookup-insert s.id k s r
lookup-apply k (updates s) r w = ground (
  arith,
  Option-cases (lookup s.id r),
  Option-cases (lookup k r),
  same_iff s.id k,
  lookup-insert s.id k s r,
)
lookup-apply k (deletes id) r w = lookup-delete id k r
lookup-apply k (touches now id) r w = elim (Option-cases (lookup id r)) [
  | inl e ↦ ground (arith, e, Option-cases (lookup k r), same_iff id k)
  | inr (s, e) ↦ ground (
    arith,
    e,
    Option-cases (lookup k r),
    same_iff id k,
    lookup-insert id k (record s { last_activity_at = now }) r,
  )
]
lookup-apply k (cleans now) r w = lookup-delete_expired now k r w

lookup-run :
    (k : Text) (cs : List Op) (r : Store)
    → IsStore r
    → lookup k (run cs r) ≡ history k cs (lookup k r)
lookup-run k [] r w = refl
lookup-run k (c ∷ cs) r w =
    lookup-run k cs (apply c r) (apply-IsStore c r w) ∙ ap (history k cs) (lookup-apply k c r w)

-- After any calls of a new store, `Get` answers for each id by that session's own history: calls with
-- other ids do not matter to it, and among those that do, an update or activity without a session
-- creates none.
pub get-run :
    (cs : List Op) (now : ℕ) (k : Text)
    → get now k (run cs new_store) ≡ answer now (history k cs none)
unfolding get live lookup
get-run cs now k =
    let there : lookup k (run cs new_store) ≡ history k cs none = lookup-run k cs new_store tt in
    ground (arith, there, Option-cases (history k cs none))

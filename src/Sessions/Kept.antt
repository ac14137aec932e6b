-- ===== src/Sessions/Kept.antt =====
-- Which sessions the store keeps.
use conduit_bmc.Base.{
  ℕ, ◌≤◌, ◌≡◌, ◌↔◌, refl, if◌then◌else◌, false, Option, none, some, List, [], ◌∷◌, Result, ok, err,
  Text, same, same_iff, same_refl, lookup, insert, delete, lookup-insert, lookup-delete, arith,
  Bool-cases, Option-cases, inl, inr,
}
use conduit_bmc.Sessions.{
  WebSession, Error, Store, new_store, create, expired, live, get, update, delete_session,
  update_activity, get_by_sol_session_id, delete_expired,
}

-- As in a map, no id has a second entry, and a session stands under its id.
abbrev pub IsStore : Store → Type 0
IsStore [] = Unit
IsStore ((k, s) ∷ r) = (s.id ≡ k) × (lookup k r ≡ none) × IsStore r

IsStore-insert :
    (k : Text) (s : WebSession) (r : Store) → s.id ≡ k → IsStore r → IsStore (insert k s r)
unfolding insert lookup
IsStore-insert k s [] e w = (e, refl, tt)
IsStore-insert k s ((j, t) ∷ r) e w =
    ground (arith, e, w, same_iff j k, same_iff k j, lookup-insert k j s r, IsStore-insert k s r e)

IsStore-delete : (k : Text) (r : Store) → IsStore r → IsStore (delete k r)
unfolding delete lookup
IsStore-delete k [] w = tt
IsStore-delete k ((j, t) ∷ r) w =
    ground (arith, w, same_iff j k, lookup-delete k j r, IsStore-delete k r)

delete_expired_absent :
    (now : ℕ) (k : Text) (r : Store) → lookup k r ≡ none → lookup k (delete_expired now r).1 ≡ none
unfolding delete_expired lookup
delete_expired_absent now k [] h = refl
delete_expired_absent now k ((j, s) ∷ r) h = ground (arith, delete_expired_absent now k r)

IsStore-delete_expired : (now : ℕ) (r : Store) → IsStore r → IsStore (delete_expired now r).1
unfolding delete_expired lookup
IsStore-delete_expired now [] w = tt
IsStore-delete_expired now ((j, s) ∷ r) w =
    ground (arith, w, delete_expired_absent now j r, IsStore-delete_expired now r)

abbrev pub unless_expired : ℕ → Option WebSession → Option WebSession
unless_expired now none = none
unless_expired now (some s) = if expired now s then none else some s

pub lookup-delete_expired :
    (now : ℕ) (k : Text) (r : Store)
    → IsStore r
    → lookup k (delete_expired now r).1 ≡ unless_expired now (lookup k r)
unfolding delete_expired lookup
lookup-delete_expired now k [] w = refl
lookup-delete_expired now k ((j, s) ∷ r) w =
    ground
      (arith, w, lookup-delete_expired now k r w.2, delete_expired_absent now k r, same_iff j k)

-- In a store, deleting the sessions that have expired at one time hides none that `Get` would return
-- at that time or later, changes none of them, and adds none.
pub get-delete_expired :
    (t now : ℕ) (k : Text) (r : Store) (s : WebSession)
    → IsStore r
    → t ≤ now
    → (get now k (delete_expired t r).1 ≡ ok s) ↔ (get now k r ≡ ok s)
unfolding get live
get-delete_expired t now k r s w h = ground (arith, h, lookup-delete_expired t k r w)

-- The calls of the store that change it; an `Update` or `UpdateActivity` that fails changes nothing.
pub data Op : Type 0 where
  creates updates : WebSession → Op
  deletes : Text → Op
  touches : ℕ → Text → Op
  cleans : ℕ → Op

abbrev pub or_same : Result Error Store → Store → Store
or_same (ok r) old = r
or_same (err e) old = old

abbrev pub apply : Op → Store → Store
apply (creates s) r = create s r
apply (updates s) r = or_same (update s r) r
apply (deletes id) r = delete_session id r
apply (touches now id) r = or_same (update_activity now id r) r
apply (cleans now) r = (delete_expired now r).1

abbrev pub run : List Op → Store → Store
run [] r = r
run (o ∷ os) r = run os (apply o r)

lookup-IsStore :
    (k : Text) (s : WebSession) (r : Store) → IsStore r → lookup k r ≡ some s → s.id ≡ k
unfolding lookup
lookup-IsStore k s [] w h = cc
lookup-IsStore k s ((j, t) ∷ r) w h = ground (arith, w, same_iff j k, lookup-IsStore k s r)

touched-IsStore :
    (now : ℕ) (id : Text) (r : Store) → IsStore r → IsStore (or_same (update_activity now id r) r)
unfolding update_activity
touched-IsStore now id r w = elim (Option-cases (lookup id r)) [
  | inl e ↦
      let same_store : or_same (update_activity now id r) r ≡ r = ground (arith, e) in
      rw same_store w
  | inr (s, e) ↦
      let touched = record s { last_activity_at = now } in
      let f : or_same (update_activity now id r) r ≡ insert id touched r = ground (arith, e) in
      rw f (IsStore-insert id touched r (lookup-IsStore id s r w e) w)
]

updated-IsStore : (s : WebSession) (r : Store) → IsStore r → IsStore (or_same (update s r) r)
unfolding update
updated-IsStore s r w = elim (Option-cases (lookup s.id r)) [
  | inl e ↦ let same_store : or_same (update s r) r ≡ r = ground (arith, e) in rw same_store w
  | inr (old, e) ↦
      let f : or_same (update s r) r ≡ insert s.id s r = ground (arith, e) in
      rw f (IsStore-insert s.id s r refl w)
]

pub apply-IsStore : (o : Op) (r : Store) → IsStore r → IsStore (apply o r)
unfolding create delete_session
apply-IsStore (creates s) r w = IsStore-insert s.id s r refl w
apply-IsStore (updates s) r w = updated-IsStore s r w
apply-IsStore (deletes id) r w = IsStore-delete id r w
apply-IsStore (touches now id) r w = touched-IsStore now id r w
apply-IsStore (cleans now) r w = IsStore-delete_expired now r w

run-IsStore_from : (os : List Op) (r : Store) → IsStore r → IsStore (run os r)
run-IsStore_from [] r w = w
run-IsStore_from (o ∷ os) r w = run-IsStore_from os (apply o r) (apply-IsStore o r w)

-- After any calls of a new store, every session stands under its own id and no id has two.
pub run-IsStore : (os : List Op) → IsStore (run os new_store)
run-IsStore os = run-IsStore_from os new_store tt

pub record OfSol (now : ℕ) (id : Text) (r : Store) (s : WebSession) : Type 0 where
  pub matches : s.sol_session_id ≡ id
  pub unexpired : now ≤ s.expires_at
  pub stored : lookup s.id r ≡ some s

behind-OfSol :
    (now : ℕ) (id j : Text) (t s : WebSession) (r : Store)
    → lookup j r ≡ none
    → OfSol now id r s
    → OfSol now id ((j, t) ∷ r) s
unfolding lookup
behind-OfSol now id j t s r e w = record {
  matches = w.matches;
  unexpired = w.unexpired;
  stored = ground (arith, e, w.stored, same_iff j s.id);
}

-- In a store, `GetBySOLSessionID` returns only a session of that SOL session that has not expired and
-- that stands under its own id.
pub get_by_sol_session_id-OfSol :
    (now : ℕ) (id : Text) (r : Store) (s : WebSession)
    → IsStore r
    → get_by_sol_session_id now id r ≡ ok s
    → OfSol now id r s
unfolding get_by_sol_session_id live lookup
get_by_sol_session_id-OfSol now id [] s w h = cc
get_by_sol_session_id-OfSol now id ((j, t) ∷ r) s w h =
    elim (Bool-cases (same t.sol_session_id id)) [
      | inl e ↦
          let f : (expired now t ≡ false) × (t ≡ s) = ground (arith, e, h) in
          record {
            matches = rw (← f.1) ((same_iff t.sol_session_id id).0 e);
            unexpired = rw (← f.1) (ground (arith, f.0));
            stored = ground (arith, f.1, w, same_refl j);
          }
      | inr e ↦
          behind-OfSol now id j t s r w.1
            (get_by_sol_session_id-OfSol now id r s w.2 (ground (arith, e, h)))
    ]

-- ===== src/Sessions/Tests.antt =====
-- Web sessions at concrete inputs.
use conduit_bmc.Base.{◌≡◌, ◌↔◌, refl, [], ◌∷◌, str, same, lookup, ok, arith}
use conduit_bmc.Sessions.{
  WebSession, Store, get, live, new_store, delete_expired, get_by_sol_session_id,
}
use conduit_bmc.Sessions.Kept.{
  IsStore, Op, get-delete_expired, creates, updates, touches, cleans, run,
}
use conduit_bmc.Sessions.History.{answer, history, get-run}
use conduit_bmc.Base.{none, List}

abbrev console : WebSession
console = record {
  id = str "w1";
  sol_session_id = str "sol-1";
  vnc_session_id = [];
  customer_jwt = str "jwt";
  created_at = 1;
  last_activity_at = 1;
  expires_at = 50;
  token_expires_at = 60;
  token_renewal_at = 40;
  customer_id = str "ann";
  server_id = str "s1";
}

abbrev old_console : WebSession
old_console = record console { id = str "w0"; sol_session_id = str "sol-0"; expires_at = 5 }

abbrev consoles : Store
consoles = (str "w0", old_console) ∷ ((str "w1", console) ∷ [])

is_store : IsStore consoles
unfolding lookup same
is_store = (refl, refl, (refl, refl, tt))

-- The first session is cleaned, the second is touched, and a third was never created.
abbrev calls : List Op
calls =
    creates old_console
    ∷ creates console
    ∷ updates (record console { id = str "w9" })
    ∷ touches 9 (str "w1")
    ∷ cleans 10
    ∷ []

get-run_example :
    get 12 (str "w1") (run calls new_store) ≡ answer 12 (history (str "w1") calls none)
get-run_example = get-run calls 12 (str "w1")

get-delete_expired_example :
    (get 12 (str "w1") (delete_expired 10 consoles).1 ≡ ok console)
    ↔ (get 12 (str "w1") consoles ≡ ok console)
get-delete_expired_example =
    get-delete_expired 10 12 (str "w1") consoles console is_store (omega arith)

finds_it : get_by_sol_session_id 12 (str "sol-1") consoles ≡ ok console
unfolding get_by_sol_session_id live same
finds_it = refl

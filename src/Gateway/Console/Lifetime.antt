-- ===== src/Gateway/Console/Lifetime.antt =====
-- From the creation of a console session to its expiry.
use conduit_bmc.Base.{
  bind-ok, ℕ, ◌+◌, ◌*◌, ◌≡◌, refl, ltb, if◌then◌else◌, true, ◌||◌, some, Result, ok, err, Text, str,
  same, lookup, lookup-insert_self, arith, ◌++◌, decimal,
}
use conduit_bmc.Agents.{Info, get}
use conduit_bmc.Auth.Context.{ServerContext, has_permission}
use conduit_bmc.Gateway.{
  AgentBmcMapping, ConsoleSession, Gateway, Context, Failure, session_not_found, access_denied,
}
use conduit_bmc.Gateway.Access.{
  Validator, authorize, extract_server_context, from_context, may_use_console,
}
use conduit_bmc.Gateway.Power.{find_agent}
use conduit_bmc.Gateway.Power.Admitted.{find_agent-Found, authorize-ok}
use conduit_bmc.Gateway.Console.{
  hour, CreateSessionResponse, store_session, unexpired, get_console_session_by_id, view_of,
  vnc_session, vnc_response, sol_session, sol_response, create_vnc_session, create_sol_session,
  get_sol_session,
}

-- The two kinds of sessions, with the times that their creation reads.
pub data Kind : Type 0 where
  vnc : ℕ → ℕ → ℕ → Kind
  sol : ℕ → ℕ → Kind

abbrev pub create :
    Validator
    → Kind
    → ℕ
    → Context
    → Text
    → Gateway
    → Result Failure (CreateSessionResponse × Gateway)
create validate (vnc id_time expiry_time created_at) now =
    create_vnc_session validate now id_time expiry_time created_at
create validate (sol id_time created_at) now = create_sol_session validate now id_time created_at

-- A VNC session lasts an hour from when its expiry is set, a SOL session two from its creation.
abbrev pub deadline : Kind → ℕ
deadline (vnc id_time expiry_time created_at) = expiry_time + hour
deadline (sol id_time created_at) = created_at + 2 * hour

abbrev pub creation : Kind → ℕ
creation (vnc id_time expiry_time created_at) = created_at
creation (sol id_time created_at) = created_at

abbrev pub id_of : Kind → Text
id_of (vnc id_time expiry_time created_at) = str "vnc-" ++ decimal id_time
id_of (sol id_time created_at) = str "sol-" ++ decimal id_time

pub record Opened (validate : Validator) (k : Kind) (now : ℕ) (ctx : Context) (server_id : Text)
    (g : Gateway) (response : CreateSessionResponse) (after : Gateway) : Type 0 where
  pub sc : ServerContext
  pub mapping : AgentBmcMapping
  pub agent : Info
  pub session : ConsoleSession
  pub authentic : extract_server_context validate now ctx ≡ some sc
  pub for_server : sc.server_id ≡ server_id
  pub permitted :
      (has_permission sc (str "console:write") || has_permission sc (str "console:access")) ≡ true
  pub mapped : lookup sc.bmc_endpoint g.bmc_endpoint_mapping ≡ some mapping
  pub registered : get mapping.agent_id g.agent_registry ≡ some agent
  pub stored : after ≡ store_session session g
  pub id : session.session_id ≡ id_of k
  pub answered : response.session_id ≡ session.session_id
  pub server : session.server_id ≡ server_id
  pub endpoint : session.bmc_endpoint ≡ sc.bmc_endpoint
  pub by_agent : session.agent_id ≡ mapping.agent_id
  pub customer : session.customer_id ≡ sc.customer_id
  pub created : session.created_at ≡ creation k
  pub expires : session.expires_at ≡ deadline k

module _ (validate : Validator) where
  -- A created session belongs to the customer of a token for its server with a console permission, on
  -- a BMC that a registered agent reaches; it is stored under its id, lasts one hour (VNC) or two
  -- (SOL), and nothing else changes.
  pub create-Opened :
      (k : Kind) (now : ℕ) (ctx : Context) (server_id : Text) (g : Gateway)
      (response : CreateSessionResponse) (after : Gateway)
      → create validate k now ctx server_id g ≡ ok (response, after)
      → Opened validate k now ctx server_id g response after
  unfolding create_vnc_session create_sol_session vnc_session vnc_response sol_session sol_response
  create-Opened (vnc t u v) now ctx server_id g response after h =
      let (sc, p, h₁) = bind-ok (authorize validate now ctx server_id may_use_console) _ h in
      let ((mapping, agent), q, h₂) = bind-ok (find_agent g sc.bmc_endpoint) _ h₁ in
      let (authentic, for_server, permitted) =
        authorize-ok validate now ctx server_id may_use_console sc p in
      let f = find_agent-Found g sc.bmc_endpoint mapping agent q in
      record {
        sc = sc;
        mapping = mapping;
        agent = agent;
        session = vnc_session sc mapping t u v;
        authentic = authentic;
        for_server = for_server;
        permitted = unfold may_use_console in permitted;
        mapped = f.mapped;
        registered = f.registered;
        stored = cc h₂;
        id = refl;
        answered = cc h₂;
        server = for_server;
        endpoint = refl;
        by_agent = refl;
        customer = refl;
        created = refl;
        expires = refl;
      }
  create-Opened (sol t v) now ctx server_id g response after h =
      let (sc, p, h₁) = bind-ok (authorize validate now ctx server_id may_use_console) _ h in
      let ((mapping, agent), q, h₂) = bind-ok (find_agent g sc.bmc_endpoint) _ h₁ in
      let (authentic, for_server, permitted) =
        authorize-ok validate now ctx server_id may_use_console sc p in
      let f = find_agent-Found g sc.bmc_endpoint mapping agent q in
      record {
        sc = sc;
        mapping = mapping;
        agent = agent;
        session = sol_session sc mapping server_id t v;
        authentic = authentic;
        for_server = for_server;
        permitted = unfold may_use_console in permitted;
        mapped = f.mapped;
        registered = f.registered;
        stored = cc h₂;
        id = refl;
        answered = cc h₂;
        server = refl;
        endpoint = refl;
        by_agent = refl;
        customer = refl;
        created = refl;
        expires = refl;
      }

  -- What `GetSOLSession` answers to a token's customer about a session that is stored.
  get_sol_session-stored :
      (now later : ℕ) (ctx : Context) (id : Text) (g : Gateway) (sc : ServerContext)
      (s : ConsoleSession)
      → extract_server_context validate now ctx ≡ some sc
      → lookup id g.console_sessions ≡ some s
      → get_sol_session validate now later ctx id g ≡ (
          if ltb s.expires_at later
          then err (session_not_found id)
          else if same s.customer_id sc.customer_id
          then ok (view_of g id s)
          else err access_denied)
  unfolding get_sol_session from_context get_console_session_by_id unexpired
  get_sol_session-stored now later ctx id g sc s p q = ground (arith, p, q)

  -- A session that was created under one server context is shown by `GetSOLSession`, until it expires,
  -- to a request whose server context has the same customer id, and refused to one with another
  -- customer id; once it has expired it is not found. Who holds the token is not compared.
  pub get_sol_session-create :
      (k : Kind) (now : ℕ) (ctx : Context) (server_id : Text) (g : Gateway)
      (response : CreateSessionResponse) (after : Gateway) (now₂ later : ℕ) (ctx₂ : Context)
      (owner asking : ServerContext)
      → extract_server_context validate now ctx ≡ some owner
      → extract_server_context validate now₂ ctx₂ ≡ some asking
      → create validate k now ctx server_id g ≡ ok (response, after)
      → (s : ConsoleSession) × (s.server_id ≡ server_id)
        × (s.customer_id ≡ owner.customer_id)
        × (get_sol_session validate now₂ later ctx₂ response.session_id after ≡ (
            if ltb (deadline k) later
            then err (session_not_found response.session_id)
            else if same owner.customer_id asking.customer_id
            then ok (view_of after response.session_id s)
            else err access_denied))
  unfolding store_session
  get_sol_session-create k now ctx server_id g response after now₂ later ctx₂ owner asking p p₂ h =
      let w = create-Opened k now ctx server_id g response after h in
      let owned : w.session.customer_id ≡ owner.customer_id =
        ground (arith, p, w.authentic, w.customer) in
      let there : lookup response.session_id after.console_sessions ≡ some w.session = ground (
        arith,
        w.stored,
        w.answered,
        lookup-insert_self w.session.session_id w.session g.console_sessions,
      ) in
      (
        w.session,
        w.server,
        owned,
        ground (
          arith,
          owned,
          w.expires,
          get_sol_session-stored now₂ later ctx₂ response.session_id after asking w.session p₂
              there,
        ),
      )

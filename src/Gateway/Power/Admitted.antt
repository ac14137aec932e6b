-- ===== src/Gateway/Power/Admitted.antt =====
-- What a call that is let through has been found to be.
use conduit_bmc.Base.{
  bind-ok, or_fail-ok, ℕ, ◌≡◌, Bool, true, some, ok, or_fail, require, Text, same, same_iff, lookup,
  arith, ◌∙◌, ap,
}
use conduit_bmc.Agents.{Info, get}
use conduit_bmc.Auth.Context.{ServerContext}
use conduit_bmc.Gateway.{
  AgentBmcMapping, Gateway, Context, server_id_mismatch, endpoint_not_found, agent_not_available,
}
use conduit_bmc.Gateway.Access.{Validator, from_context, authorize, extract_server_context}
use conduit_bmc.Gateway.Power.{find_agent}

pub record Found (g : Gateway) (e : Text) (mapping : AgentBmcMapping) (agent : Info) : Type 0 where
  pub mapped : lookup e g.bmc_endpoint_mapping ≡ some mapping
  pub registered : get mapping.agent_id g.agent_registry ≡ some agent

Found-eq :
    (g : Gateway) (e : Text) (mp mapping : AgentBmcMapping) (a agent : Info)
    → lookup e g.bmc_endpoint_mapping ≡ some mp
    → get mp.agent_id g.agent_registry ≡ some a
    → mp ≡ mapping
    → a ≡ agent
    → Found g e mapping agent
Found-eq g e mp mapping a agent q r s t = record {
  mapped = q ∙ ap some s;
  registered = rw (s, t) at r;
}

pub find_agent-Found :
    (g : Gateway) (e : Text) (mapping : AgentBmcMapping) (agent : Info)
    → find_agent g e ≡ ok (mapping, agent)
    → Found g e mapping agent
unfolding find_agent
find_agent-Found g e mapping agent h =
    let (mp, q, h₁) =
      bind-ok (or_fail (lookup e g.bmc_endpoint_mapping) (endpoint_not_found e)) _ h in
    let (a, r, h₂) =
      bind-ok (or_fail (get mp.agent_id g.agent_registry) (agent_not_available mp.agent_id)) _ h₁ in
    Found-eq g e mp mapping a agent (or_fail-ok _ _ q) (or_fail-ok _ _ r) (cc h₂) (cc h₂)

module _ (validate : Validator) where
  pub authorize-ok :
      (now : ℕ) (ctx : Context) (server_id : Text) (permitted : ServerContext → Bool)
      (sc : ServerContext)
      → authorize validate now ctx server_id permitted ≡ ok sc
      → (extract_server_context validate now ctx ≡ some sc)
        × (sc.server_id ≡ server_id)
        × (permitted sc ≡ true)
  unfolding authorize
  authorize-ok now ctx server_id permitted sc h =
      let (sc₁, p, h₁) =
        bind-ok (from_context validate (extract_server_context validate now ctx)) _ h in
      let (_, q, h₂) = bind-ok (require (same sc₁.server_id server_id) server_id_mismatch) _ h₁ in
      ground (arith, p, q, h₂, same_iff sc₁.server_id server_id)

-- ===== src/LocalAgent/Loop/Idle.antt =====
-- What follows when the gateway cannot be reached while an agent starts.
use conduit_bmc.Base.{
  Option-cases, All, ℕ, ◌+◌, ◌≡◌, refl, ap, subst, ◌∙◌, ◌⊎◌, inl, inr, false, List, [], ◌∷◌, arith,
}
use conduit_bmc.LocalAgent.{LocalAgent, AgentConfig, discover_and_register}
use conduit_bmc.LocalAgent.Loop.{
  Attempt, MainLoop, delay, attempts_loop, retry_registration, start, on_tick, on_heartbeat,
  send_heartbeat, Turn, ticks, retries, beats, Turns, none_yet, then_turn,
}

module _ (config : AgentConfig) where
  -- The attempt fails, whatever the agent has found before.
  abbrev pub Fails : Attempt → Type 0
  Fails a = (agent : LocalAgent) → (discover_and_register config a.found a.accepts agent).0 ≡ false

  stays :
      (a : Attempt) (agent : LocalAgent)
      → Fails a
      → (discover_and_register config a.found a.accepts agent).1.registered ≡ agent.registered
  unfolding discover_and_register
  stays a agent f = ground (arith, f agent, Option-cases a.found)

  attempts_loop-Fails :
      (a : Attempt) (later : List Attempt) (attempt : ℕ) (agent : LocalAgent)
      → Fails a
      → let after = (discover_and_register config a.found a.accepts agent).1 in
        attempts_loop config (a ∷ later) attempt agent ≡ (
          delay attempt + (attempts_loop config later (attempt + 1) after).0,
          (attempts_loop config later (attempt + 1) after).1,
        )
  unfolding attempts_loop
  attempts_loop-Fails a later attempt agent f = rw (f agent) refl

  still_unregistered :
      (attempts : List Attempt) (attempt : ℕ) (agent : LocalAgent)
      → All Fails attempts
      → (attempts_loop config attempts attempt agent).1.registered ≡ agent.registered
  unfolding attempts_loop
  still_unregistered [] attempt agent f = refl
  still_unregistered (a ∷ attempts) attempt agent (f, fs) = rw (f agent) (
      still_unregistered attempts (attempt + 1)
        (discover_and_register config a.found a.accepts agent).1 fs
      ∙ stays a agent f)

  -- The seconds that are waited when every attempt fails.
  abbrev waits : List Attempt → ℕ → ℕ
  waits [] attempt = 0
  waits (a ∷ attempts) attempt = delay attempt + waits attempts (attempt + 1)

  attempts_loop-waits :
      (attempts : List Attempt) (attempt : ℕ) (agent : LocalAgent)
      → All Fails attempts
      → (attempts_loop config attempts attempt agent).0 ≡ waits attempts attempt
  unfolding attempts_loop
  attempts_loop-waits [] attempt agent f = refl
  attempts_loop-waits (a ∷ attempts) attempt agent (f, fs) = rw (f agent) (
      ap (λ n. delay attempt + n)
        (attempts_loop-waits attempts (attempt + 1)
          (discover_and_register config a.found a.accepts agent).1 fs))

  -- The main loop has changed nothing, or its first discovery was the beginning of what it has done.
  abbrev pub Idle : MainLoop → MainLoop → Type 0
  Idle s t = (t ≡ s) ⊎ ((a : Attempt) × Turns config (on_tick config a s) t)

  Turn-Idle :
      (s t : MainLoop)
      → s.agent.registered ≡ false
      → s.retrying ≡ false
      → Turn config s t
      → Idle s t
  unfolding on_heartbeat send_heartbeat
  Turn-Idle s t h r (ticks a) = inr (a, none_yet)
  Turn-Idle s t h r (retries a e) = absurd (ground (arith, r, e))
  Turn-Idle s t h r (beats accepts) = inl (ground (arith, h))

  Turns-Idle :
      (s t : MainLoop)
      → s.agent.registered ≡ false
      → s.retrying ≡ false
      → Turns config s t
      → Idle s t
  Turns-Idle s t h r none_yet = inl refl
  Turns-Idle s t h r (then_turn {t = u} run turn) = elim (Turns-Idle s u h r run) [
    | inl e ↦ Turn-Idle s t h r (subst (λ v. Turn config v t) e turn)
    | inr (a, run') ↦ inr (a, then_turn run' turn)
  ]

  -- When the first five attempts fail, an agent waits for 31 seconds, and what then runs changes nothing
  -- before the first periodic discovery: no heartbeat is sent and the ticker for fast retries does
  -- not run, whatever the gateway would answer.
  pub start-Idle :
      (a b c d e : Attempt) (rest : List Attempt) (agent : LocalAgent) (t : MainLoop)
      → agent.registered ≡ false
      → All Fails (a ∷ b ∷ c ∷ d ∷ e ∷ [])
      → Turns config (start config (a ∷ b ∷ c ∷ d ∷ e ∷ rest) agent) t
      → ((retry_registration config (a ∷ b ∷ c ∷ d ∷ e ∷ rest) agent).0 ≡ 31)
        × ((start config (a ∷ b ∷ c ∷ d ∷ e ∷ rest) agent).agent.registered ≡ false)
        × Idle (start config (a ∷ b ∷ c ∷ d ∷ e ∷ rest) agent) t
  unfolding retry_registration start delay
  start-Idle a b c d e rest agent t n f run =
      let five = a ∷ b ∷ c ∷ d ∷ e ∷ [] in
      let left = still_unregistered five 0 agent f ∙ n in
      (attempts_loop-waits five 0 agent f, left, Turns-Idle _ t left refl run)

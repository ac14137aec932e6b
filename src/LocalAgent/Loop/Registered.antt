-- ===== src/LocalAgent/Loop/Registered.antt =====
-- Whether the main loop of an agent tries to register.
use conduit_bmc.Base.{Bool-cases, Option-cases, ◌≡◌, ◌⊎◌, inl, inr, true, arith}
use conduit_bmc.LocalAgent.{LocalAgent, AgentConfig, discover_and_register}
use conduit_bmc.LocalAgent.Loop.{
  Attempt, MainLoop, on_tick, on_retry, on_heartbeat, send_heartbeat, Turn, ticks, retries, beats,
  Turns, none_yet, then_turn,
}

-- The agent is registered, or will try to be in five seconds.
abbrev pub Trying : MainLoop → Type 0
Trying s = (s.agent.registered ≡ true) ⊎ (s.retrying ≡ true)

accepted :
    (config : AgentConfig) (a : Attempt) (agent : LocalAgent)
    → (discover_and_register config a.found a.accepts agent).0 ≡ true
    → (discover_and_register config a.found a.accepts agent).1.registered ≡ true
unfolding discover_and_register
accepted config a agent h = ground (arith, h, Option-cases a.found)

module _ (config : AgentConfig) where
  tick-Trying : (a : Attempt) (s : MainLoop) → Trying (on_tick config a s)
  unfolding on_tick
  tick-Trying a s = elim (Bool-cases (discover_and_register config a.found a.accepts s.agent).0) [
    | inl t ↦ inl (ground (arith, t, accepted config a s.agent t))
    | inr f ↦ inr (ground (arith, f))
  ]

  Turn-Trying : (s t : MainLoop) → Trying s → Turn config s t → Trying t
  unfolding on_retry on_heartbeat
  Turn-Trying s t h (ticks a) = tick-Trying a s
  Turn-Trying s t h (retries a r) = ground (
    arith,
    h,
    r,
    Bool-cases s.agent.registered,
    Bool-cases (discover_and_register config a.found a.accepts s.agent).0,
    accepted config a s.agent,
  )
  Turn-Trying s t h (beats accepts) =
      ground (arith, h, Bool-cases (send_heartbeat config accepts s.agent))

  -- From a state in which the agent is registered or the ticker for fast retries runs, the main loop
  -- only reaches such states: after any failure of a registration or a heartbeat it tries again.
  pub Turns-Trying : (s t : MainLoop) → Trying s → Turns config s t → Trying t
  Turns-Trying s t h none_yet = h
  Turns-Trying s t h (then_turn {t = u} run turn) = Turn-Trying u t (Turns-Trying s u h run) turn

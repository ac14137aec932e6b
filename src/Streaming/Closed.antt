-- ===== src/Streaming/Closed.antt =====
-- The end of the gateway's proxy brings the agent's to its end.
use conduit_bmc.Base.{
  if◌then◌else◌, Bool-cases, length, length-append, Text, ℕ, zero, suc, ◌+◌, ◌≤◌, ◌<◌, ◌≡◌, refl,
  ◌∙◌, ◌⊎◌, inl, inr, Bool, true, false, List, [], ◌∷◌, arith,
}
use conduit_bmc.Streaming.{close_chunk, Chunk, Verdict, forward, skip, stop}
use conduit_bmc.Streaming.Relay.{
  Source, Sink, Pipe, receives, after_receive, close, Relay, Step, up_moves, down_moves,
  gateway_closes, agent_closes, Run, new_relay,
}
use conduit_bmc.Streaming.Relay.Pipes.{ends}
use conduit_bmc.Streaming.Relay.Prefix.{IsKept, Step-IsKept, Run-IsKept, new_relay-IsKept}

-- What is left to do in a direction: its chunks, and two for a close that was not sent.
abbrev weight : {I : Type 0} → Pipe I → Bool → ℕ
weight p sends = length p.stream + (if sends then 2 else 0)

after_receive-weight :
    {I : Type 0} (c : Chunk) (rest : List Chunk) (v : Verdict) (p : Pipe I) (sends : Bool)
    → p.stream ≡ c ∷ rest
    → weight (after_receive rest v p) sends < weight p sends
unfolding after_receive
after_receive-weight c rest (forward b) p sends h = rw h (omega arith)
after_receive-weight c rest skip p sends h = rw h (omega arith)
after_receive-weight c rest stop p sends h = rw h (omega arith)

close-weight :
    {I : Type 0} (sid server_id : Text) (p : Pipe I)
    → weight (close sid server_id p) false < weight p true
unfolding close
close-weight sid server_id p =
    omega (arith, length-append p.stream (close_chunk sid server_id ∷ []))

module _ (sid server_id : Text) {I J : Type 0} (browser : Source I) (server : Source J)
    (at_agent at_gateway : Sink) where
  -- The steps that are left when nothing more is read from the browser or the server, and nothing
  -- fails: a loop receives the next chunk, or a proxy closes.
  pub data Settling (s : Relay I J) : Relay I J → Type 0 where
    agent_receives :
        (c : Chunk) (rest : List Chunk)
        → s.up.stream ≡ c ∷ rest
        → s.up.writing ≡ true
        → Settling s (record s { up = after_receive rest (at_agent.verdict c) s.up })
    gateway_receives :
        (c : Chunk) (rest : List Chunk)
        → s.down.stream ≡ c ∷ rest
        → s.down.writing ≡ true
        → Settling s (record s { down = after_receive rest (at_gateway.verdict c) s.down })
    gateway_ends :
        s.gateway_open ≡ true
        → (s.up.reading ≡ false) ⊎ (s.down.writing ≡ false)
        → Settling s (record s { up = close sid server_id s.up; gateway_open = false })
    agent_ends :
        s.agent_open ≡ true
        → (s.down.reading ≡ false) ⊎ (s.up.writing ≡ false)
        → Settling s (record s { down = close sid server_id s.down; agent_open = false })

  -- Both proxies have closed, or some settling step can be taken and every one leads to such a state:
  -- whichever are taken, after finitely many of them both proxies have closed.
  pub data Settles : Relay I J → Type 0 where
    settled : {s : Relay I J} → s.gateway_open ≡ false → s.agent_open ≡ false → Settles s
    goes_on :
        {s : Relay I J} (t : Relay I J)
        → Settling s t
        → ((u : Relay I J) → Settling s u → Settles u)
        → Settles s

  Settling-Step :
      {s t : Relay I J} → Settling s t → Step sid server_id browser server at_agent at_gateway s t
  Settling-Step (agent_receives c rest h w) = up_moves _ (receives c rest h w)
  Settling-Step (gateway_receives c rest h w) = down_moves _ (receives c rest h w)
  Settling-Step (gateway_ends o e) = gateway_closes o e
  Settling-Step (agent_ends o e) = agent_closes o e

  abbrev left : Relay I J → ℕ
  left s = weight s.up s.gateway_open + weight s.down s.agent_open

  Settling-left : {s t : Relay I J} → Settling s t → left t < left s
  Settling-left {s = s} (agent_receives c rest h w) =
      omega (arith, after_receive-weight c rest (at_agent.verdict c) s.up s.gateway_open h)
  Settling-left {s = s} (gateway_receives c rest h w) =
      omega (arith, after_receive-weight c rest (at_gateway.verdict c) s.down s.agent_open h)
  Settling-left {s = s} (gateway_ends o e) = rw o (omega (arith, close-weight sid server_id s.up))
  Settling-left {s = s} (agent_ends o e) = rw o (omega (arith, close-weight sid server_id s.down))

  -- One of the gateway's loops has ended.
  abbrev pub Ending : Relay I J → Type 0
  Ending s = (s.up.reading ≡ false) ⊎ (s.down.writing ≡ false)

  stays_ended :
      {K : Type 0} (rest : List Chunk) (v : Verdict) (p : Pipe K)
      → ((after_receive rest v p).reading ≡ p.reading)
        × (p.writing ≡ false → (after_receive rest v p).writing ≡ false)
  unfolding after_receive
  stays_ended rest (forward b) p = (refl, λ w. w)
  stays_ended rest skip p = (refl, λ w. w)
  stays_ended rest stop p = (refl, λ w. refl)

  Settling-Ending : {s t : Relay I J} → Settling s t → Ending s → Ending t
  unfolding close
  Settling-Ending {s = s} (agent_receives c rest h w) (inl e) =
      inl ((stays_ended rest (at_agent.verdict c) s.up).0 ∙ e)
  Settling-Ending (agent_receives c rest h w) (inr e) = inr e
  Settling-Ending (gateway_receives c rest h w) (inl e) = inl e
  Settling-Ending {s = s} (gateway_receives c rest h w) (inr e) =
      inr ((stays_ended rest (at_gateway.verdict c) s.down).1 e)
  Settling-Ending (gateway_ends o e) f = f
  Settling-Ending (agent_ends o e) f = f

  -- A stream that is closed and whose receiver runs holds a chunk.
  holds_one :
      (cs : List Chunk)
      → ends at_agent cs ≡ true
      → (c : Chunk) × (rest : List Chunk) × (cs ≡ c ∷ rest)
  holds_one [] e = absurd (ground (arith, e))
  holds_one (c ∷ rest) e = (c, rest, refl)

  abbrev Kept : Relay I J → Type 0
  Kept = IsKept sid server_id browser server at_agent at_gateway

  progress :
      (s : Relay I J)
      → Kept s
      → Ending s
      → ((s.gateway_open ≡ false) × (s.agent_open ≡ false)) ⊎ ((t : Relay I J) × Settling s t)
  progress s k e = elim (Bool-cases s.gateway_open) [
    | inl g ↦ inr (_, gateway_ends g e)
    | inr g ↦ elim (Bool-cases s.agent_open) [
      | inr a ↦ inl (g, a)
      | inl a ↦ elim (Bool-cases s.up.writing) [
        | inr w ↦ inr (_, agent_ends a (inr w))
        | inl w ↦
            let (x, rest, h) = holds_one s.up.stream (k.up.ended w ∙ k.gateway_shut g) in
            inr (_, agent_receives x rest h w)
      ]
    ]
  ]

  settle : (n : ℕ) (s : Relay I J) → left s ≤ n → Kept s → Ending s → Settles s
  settle zero s m k e = elim (progress s k e) [
    | inl (g, a) ↦ settled g a
    | inr (t, st) ↦ absurd (omega (arith, m, Settling-left st))
  ]
  settle (suc n) s m k e = elim (progress s k e) [
    | inl (g, a) ↦ settled g a
    | inr (t, st) ↦ goes_on t st (λ u su.
        settle n u (omega (arith, m, Settling-left su))
          (Step-IsKept sid server_id browser server at_agent at_gateway (Settling-Step su) k)
          (Settling-Ending su e))
  ]

  -- In every state that the proxies reach in which one of the gateway's loops has ended, if nothing more
  -- is read and nothing fails, both proxies come to their close: as long as one has not closed some loop
  -- can receive the next chunk or a proxy can close, and whichever of these steps are taken, after
  -- finitely many both proxies have closed.
  pub Run-Settles :
      {s : Relay I J}
      → Run sid server_id browser server at_agent at_gateway (new_relay sid server_id) s
      → (s.up.reading ≡ false) ⊎ (s.down.writing ≡ false)
      → Settles s
  Run-Settles {s} r e =
      settle (left s) s (omega arith)
        (Run-IsKept sid server_id browser server at_agent at_gateway r
          (new_relay-IsKept sid server_id browser server at_agent at_gateway))
        e

-- ===== src/Streaming/Relay/Prefix.antt =====
-- What arrives is what was said, in order and without gaps.
use conduit_bmc.Base.{
  Bool-cases, Text, ℕ, ◌≡◌, refl, sym, ap, subst, ◌∙◌, inl, inr, true, false, List, [], ◌∷◌, ◌++◌,
  arith,
}
use conduit_bmc.Streaming.{
  Chunk, Verdict, forward, skip, stop, data_chunk, close_chunk, send_handshake_ack,
}
use conduit_bmc.Streaming.Relay.{
  Source, Sink, Pipe, Move, says, reads, read_fails, send_fails, receives, receive_fails,
  write_fails, after_read, after_receive, close, Relay, Step, up_moves, down_moves, gateway_closes,
  agent_closes, gateway_returns, agent_returns, Run, here, next, new_relay, new_pipe,
}
use conduit_bmc.Streaming.Relay.Pipes.{
  then_bytes, then_ends, payload, ends, payload-append, payload-ended, ends-append,
  payload-data_chunk, payload-close_chunk, said_in, said_in-append,
}
use mathlib.Core.List.{append-nil, append_assoc}

-- `ys` begins with `xs`.
abbrev pub Begins : List ℕ → List ℕ → Type 0
Begins xs ys = (r : List ℕ) × (ys ≡ xs ++ r)

Begins-more : (xs ys zs : List ℕ) → Begins xs ys → Begins xs (ys ++ zs)
Begins-more xs ys zs (r, e) = (r ++ zs, rw e (append_assoc xs r zs))

Begins-less : (xs ys zs : List ℕ) → Begins (xs ++ ys) zs → Begins xs zs
Begins-less xs ys zs (r, e) = (ys ++ r, e ∙ append_assoc xs ys r)

regroup : (d s b r : List ℕ) → (d ++ s) ++ (b ++ r) ≡ (d ++ (s ++ b)) ++ r
regroup d s b r = simp (append_assoc)

module _ (sid server_id : Text) {I : Type 0} (source : Source I) (sink : Sink) where
  -- While the receiving loop runs, the stream holds what was said next, up to a close; while the
  -- reading loop runs too and nothing was closed, nothing that was said is missing.
  pub record Kept (p : Pipe I) : Type 0 where
    pub arrived : Begins p.delivered p.said
    pub flowing : p.writing ≡ true → Begins (p.delivered ++ payload sink p.stream) p.said
    pub whole :
        p.writing ≡ true
        → p.reading ≡ true
        → p.closed ≡ false
        → p.said ≡ (p.delivered ++ payload sink p.stream) ++ said_in source p.pending
    pub ended : p.writing ≡ true → ends sink p.stream ≡ p.closed

  says-Kept :
      (p : Pipe I) (i : I)
      → Kept p
      → Kept (record p { said = p.said ++ source.bytes_of i; pending = p.pending ++ (i ∷ []) })
  says-Kept p i k = record {
    arrived = Begins-more p.delivered p.said (source.bytes_of i) k.arrived;
    flowing = λ w.
        Begins-more (p.delivered ++ payload sink p.stream) p.said (source.bytes_of i) (k.flowing w);
    whole = λ w r c. rw (k.whole w r c) (
        rw (said_in-append source p.pending (i ∷ []), append-nil (source.bytes_of i))
          (append_assoc (p.delivered ++ payload sink p.stream) (said_in source p.pending)
            (source.bytes_of i)));
    ended = k.ended;
  }

  -- The bytes of a chunk that is added to a stream which is not closed.
  added :
      (p : Pipe I) (b : List ℕ)
      → ends sink p.stream ≡ false
      → payload sink (p.stream ++ (data_chunk sid server_id b ∷ [])) ≡ payload sink p.stream ++ b
  added p b e =
      payload-append sink p.stream _ e
      ∙ ap (λ l. payload sink p.stream ++ l) (payload-data_chunk sink sid server_id b).0

  -- What is said and not in the stream begins with the next item.
  unread :
      (p : Pipe I) (i : I) (rest : List I)
      → p.pending ≡ i ∷ rest
      → p.reading ≡ true
      → Kept p
      → p.writing ≡ true
      → p.closed ≡ false
      → p.said
        ≡ (p.delivered ++ payload sink p.stream) ++ (source.bytes_of i ++ said_in source rest)
  unread p i rest h r k w c =
      k.whole w r c ∙ ap (λ l. (p.delivered ++ payload sink p.stream) ++ said_in source l) h

  -- A chunk with the next item's bytes is added.
  grown :
      (p : Pipe I) (i : I) (rest : List I) (b : List ℕ)
      → b ≡ source.bytes_of i
      → p.pending ≡ i ∷ rest
      → p.reading ≡ true
      → Kept p
      → p.writing ≡ true
      → p.closed ≡ false
      → p.said
        ≡ (p.delivered ++ payload sink (p.stream ++ (data_chunk sid server_id b ∷ [])))
          ++ said_in source rest
  grown p i rest b e h r k w c =
      unread p i rest h r k w c
      ∙ (regroup p.delivered (payload sink p.stream) (source.bytes_of i) (said_in source rest)
          ∙ ap (λ l. (p.delivered ++ l) ++ said_in source rest)
              (ap (λ l. payload sink p.stream ++ l) (sym e) ∙ sym (added p b (k.ended w ∙ c))))

  ended-more :
      (p : Pipe I) (b : List ℕ)
      → Kept p
      → p.writing ≡ true
      → ends sink (p.stream ++ (data_chunk sid server_id b ∷ [])) ≡ p.closed
  ended-more p b k w = ground (
    arith,
    ends-append sink p.stream (data_chunk sid server_id b ∷ []),
    (payload-data_chunk sink sid server_id b).1,
    k.ended w,
  )

  flowing-more :
      (p : Pipe I) (i : I) (rest : List I) (b : List ℕ)
      → b ≡ source.bytes_of i
      → p.pending ≡ i ∷ rest
      → p.reading ≡ true
      → Kept p
      → p.writing ≡ true
      → Begins (p.delivered ++ payload sink (p.stream ++ (data_chunk sid server_id b ∷ []))) p.said
  flowing-more p i rest b e h r k w = elim (Bool-cases p.closed) [
    | inl c ↦
        subst (λ l. Begins (p.delivered ++ l) p.said)
          (sym (payload-ended sink p.stream (data_chunk sid server_id b ∷ []) (k.ended w ∙ c)))
          (k.flowing w)
    | inr c ↦ (said_in source rest, grown p i rest b e h r k w c)
  ]

  reads-Kept :
      (p : Pipe I) (i : I) (rest : List I) (v : Verdict)
      → source.verdict i ≡ v
      → p.pending ≡ i ∷ rest
      → p.reading ≡ true
      → Kept p
      → Kept (after_read sid server_id rest v p)
  unfolding after_read
  reads-Kept p i rest (forward b) e h r k = record {
    arrived = k.arrived;
    flowing = λ w. flowing-more p i rest b (source.faithful i b e) h r k w;
    whole = λ w r' c. grown p i rest b (source.faithful i b e) h r k w c;
    ended = λ w. ended-more p b k w;
  }
  reads-Kept p i rest skip e h r k = record {
    arrived = k.arrived;
    flowing = k.flowing;
    whole = λ w r' c.
        unread p i rest h r k w c
        ∙ ap (λ l. (p.delivered ++ payload sink p.stream) ++ (l ++ said_in source rest))
            (source.idle i e);
    ended = k.ended;
  }
  reads-Kept p i rest stop e h r k = record {
    arrived = k.arrived;
    flowing = k.flowing;
    whole = λ w r' c. absurd (ground arith);
    ended = k.ended;
  }

  receives-Kept :
      (p : Pipe I) (rest : List Chunk) (v : Verdict)
      → payload sink p.stream ≡ then_bytes v (payload sink rest)
      → ends sink p.stream ≡ then_ends v (ends sink rest)
      → p.writing ≡ true
      → Kept p
      → Kept (after_receive rest v p)
  unfolding after_receive
  receives-Kept p rest (forward b) s t w k =
      let front = λ (r : List ℕ).
        ap (λ l. (p.delivered ++ l) ++ r) s
        ∙ ap (λ l. l ++ r) (sym (append_assoc p.delivered b (payload sink rest))) in
      let (r, e) = k.flowing w in
      record {
        arrived = Begins-less (p.delivered ++ b) (payload sink rest) p.said (r, e ∙ front r);
        flowing = λ w'. (r, e ∙ front r);
        whole = λ w' r' c. k.whole w r' c ∙ front (said_in source p.pending);
        ended = λ w'. sym t ∙ k.ended w;
      }
  receives-Kept p rest skip s t w k = record {
    arrived = k.arrived;
    flowing = λ w'. subst (λ l. Begins (p.delivered ++ l) p.said) s (k.flowing w);
    whole = λ w' r' c. k.whole w r' c ∙ ap (λ l. (p.delivered ++ l) ++ said_in source p.pending) s;
    ended = λ w'. sym t ∙ k.ended w;
  }
  receives-Kept p rest stop s t w k = record {
    arrived = k.arrived;
    flowing = λ w'. absurd (ground arith);
    whole = λ w' r' c. absurd (ground arith);
    ended = λ w'. absurd (ground arith);
  }

  unread-Kept : (p : Pipe I) → Kept p → Kept (record p { reading = false })
  unread-Kept p k = record {
    arrived = k.arrived;
    flowing = k.flowing;
    whole = λ w r c. absurd (ground arith);
    ended = k.ended;
  }

  unwritten-Kept : (p : Pipe I) → Kept p → Kept (record p { writing = false })
  unwritten-Kept p k = record {
    arrived = k.arrived;
    flowing = λ w. absurd (ground arith);
    whole = λ w r c. absurd (ground arith);
    ended = λ w. absurd (ground arith);
  }

  pub Move-Kept : {p q : Pipe I} → Move sid server_id source sink p q → Kept p → Kept q
  Move-Kept {p = p} (says i) k = says-Kept p i k
  Move-Kept {p = p} (reads i rest h r) k = reads-Kept p i rest (source.verdict i) refl h r k
  Move-Kept {p = p} (read_fails r) k = unread-Kept p k
  Move-Kept (send_fails i rest h r) k = record {
    arrived = k.arrived;
    flowing = k.flowing;
    whole = λ w r' c. absurd (ground arith);
    ended = k.ended;
  }
  Move-Kept {p = p} (receives c rest h w) k =
      receives-Kept p rest (sink.verdict c) (ap (payload sink) h) (ap (ends sink) h) w k
  Move-Kept {p = p} (receive_fails w) k = unwritten-Kept p k
  Move-Kept (write_fails c rest h w) k = record {
    arrived = k.arrived;
    flowing = λ w'. absurd (ground arith);
    whole = λ w' r' c. absurd (ground arith);
    ended = λ w'. absurd (ground arith);
  }

  pub close-Kept : (p : Pipe I) → p.closed ≡ false → Kept p → Kept (close sid server_id p)
  unfolding close
  close-Kept p o k =
      let at_end : p.writing ≡ true
          → payload sink (p.stream ++ (close_chunk sid server_id ∷ [])) ≡ payload sink p.stream =
        λ w.
          payload-append sink p.stream _ (k.ended w ∙ o)
          ∙ (ap (λ l. payload sink p.stream ++ l) (payload-close_chunk sink sid server_id).0
              ∙ append-nil (payload sink p.stream)) in
      record {
        arrived = k.arrived;
        flowing = λ w. subst (λ l. Begins (p.delivered ++ l) p.said) (sym (at_end w)) (k.flowing w);
        whole = λ w r c. absurd (ground (arith, c));
        ended = λ w. ground (
          arith,
          ends-append sink p.stream (close_chunk sid server_id ∷ []),
          k.ended w,
          (payload-close_chunk sink sid server_id).1,
        );
      }

  of_read :
      (p : Pipe I) (rest : List I) (v : Verdict)
      → (after_read sid server_id rest v p).closed ≡ p.closed
  unfolding after_read
  of_read p rest (forward b) = refl
  of_read p rest skip = refl
  of_read p rest stop = refl

  of_receive :
      (p : Pipe I) (rest : List Chunk) (v : Verdict) → (after_receive rest v p).closed ≡ p.closed
  unfolding after_receive
  of_receive p rest (forward b) = refl
  of_receive p rest skip = refl
  of_receive p rest stop = refl

  pub Move-closed : {p q : Pipe I} → Move sid server_id source sink p q → q.closed ≡ p.closed
  Move-closed (says i) = refl
  Move-closed {p = p} (reads i rest h r) = of_read p rest (source.verdict i)
  Move-closed (read_fails r) = refl
  Move-closed (send_fails i rest h r) = refl
  Move-closed {p = p} (receives c rest h w) = of_receive p rest (sink.verdict c)
  Move-closed (receive_fails w) = refl
  Move-closed (write_fails c rest h w) = refl

  pub new_pipe-Kept :
      (stream : List Chunk)
      → payload sink stream ≡ []
      → ends sink stream ≡ false
      → Kept (new_pipe stream)
  unfolding new_pipe
  new_pipe-Kept stream h e = record {
    arrived = ([], refl);
    flowing = λ w. ([], rw h refl);
    whole = λ w r c. rw h refl;
    ended = λ w. e;
  }

module _ (sid server_id : Text) {I J : Type 0} (browser : Source I) (server : Source J)
    (at_agent at_gateway : Sink) where
  pub record IsKept (s : Relay I J) : Type 0 where
    pub up : Kept sid server_id browser at_agent s.up
    pub down : Kept sid server_id server at_gateway s.down
    pub gateway_closed : s.gateway_open ≡ true → s.up.closed ≡ false
    pub gateway_shut : s.gateway_open ≡ false → s.up.closed ≡ true
    pub agent_closed : s.agent_open ≡ true → s.down.closed ≡ false

  pub Step-IsKept :
      {s t : Relay I J}
      → Step sid server_id browser server at_agent at_gateway s t
      → IsKept s
      → IsKept t
  unfolding close
  Step-IsKept (up_moves p m) k = record {
    up = Move-Kept sid server_id browser at_agent m k.up;
    down = k.down;
    gateway_closed = λ o. Move-closed sid server_id browser at_agent m ∙ k.gateway_closed o;
    gateway_shut = λ o. Move-closed sid server_id browser at_agent m ∙ k.gateway_shut o;
    agent_closed = k.agent_closed;
  }
  Step-IsKept (down_moves p m) k = record {
    up = k.up;
    down = Move-Kept sid server_id server at_gateway m k.down;
    gateway_closed = k.gateway_closed;
    gateway_shut = k.gateway_shut;
    agent_closed = λ o. Move-closed sid server_id server at_gateway m ∙ k.agent_closed o;
  }
  Step-IsKept {s = s} (gateway_closes o e) k = record {
    up = close-Kept sid server_id browser at_agent s.up (k.gateway_closed o) k.up;
    down = k.down;
    gateway_closed = λ o'. absurd (ground arith);
    gateway_shut = λ o'. refl;
    agent_closed = k.agent_closed;
  }
  Step-IsKept {s = s} (agent_closes o e) k = record {
    up = k.up;
    down = close-Kept sid server_id server at_gateway s.down (k.agent_closed o) k.down;
    gateway_closed = k.gateway_closed;
    gateway_shut = k.gateway_shut;
    agent_closed = λ o'. absurd (ground arith);
  }
  Step-IsKept {s = s} (gateway_returns o) k = record {
    up = unread-Kept sid server_id browser at_agent s.up k.up;
    down = unwritten-Kept sid server_id server at_gateway s.down k.down;
    gateway_closed = k.gateway_closed;
    gateway_shut = k.gateway_shut;
    agent_closed = k.agent_closed;
  }
  Step-IsKept {s = s} (agent_returns o) k = record {
    up = unwritten-Kept sid server_id browser at_agent s.up k.up;
    down = unread-Kept sid server_id server at_gateway s.down k.down;
    gateway_closed = k.gateway_closed;
    gateway_shut = k.gateway_shut;
    agent_closed = k.agent_closed;
  }

  pub Run-IsKept :
      {s t : Relay I J}
      → Run sid server_id browser server at_agent at_gateway s t
      → IsKept s
      → IsKept t
  Run-IsKept here k = k
  Run-IsKept (next r st) k = Step-IsKept st (Run-IsKept r k)

  pub new_relay-IsKept : IsKept (new_relay sid server_id)
  unfolding new_relay new_pipe
  new_relay-IsKept = record {
    up = new_pipe-Kept sid server_id browser at_agent [] refl refl;
    down =
        new_pipe-Kept sid server_id server at_gateway (send_handshake_ack sid server_id ∷ [])
          (rw (at_gateway.on_ack sid server_id) refl) (rw (at_gateway.on_ack sid server_id) refl);
    gateway_closed = λ o. refl;
    gateway_shut = λ o. absurd (ground (arith, o));
    agent_closed = λ o. refl;
  }

  -- In every state that the two proxies reach, however their four loops interleave, fail, close or end,
  -- what the agent has written to its server is a beginning of what the browser has said, and what the
  -- gateway has written to the browser is a beginning of what the server has said.
  pub Run-Begins :
      {s : Relay I J}
      → Run sid server_id browser server at_agent at_gateway (new_relay sid server_id) s
      → Begins s.up.delivered s.up.said × Begins s.down.delivered s.down.said
  Run-Begins r = let k = Run-IsKept r new_relay-IsKept in (k.up.arrived, k.down.arrived)

-- ===== src/Streaming/Relay/Drained.antt =====
-- While both loops of a direction run, all that was said can still arrive.
use conduit_bmc.Base.{
  All, Text, ◌≡◌, refl, sym, ap, ◌∙◌, ◌≢◌, true, false, List, [], ◌∷◌, ◌++◌, arith,
}
use conduit_bmc.Streaming.{Chunk, Verdict, forward, skip, stop}
use conduit_bmc.Streaming.Relay.{
  Source, Sink, Pipe, reads, receives, after_read, after_receive, Relay, up_moves, Run, here, next,
  new_relay,
}
use conduit_bmc.Streaming.Relay.Pipes.{then_ends, payload, ends, said_in}
use conduit_bmc.Streaming.Relay.Prefix.{Kept, Move-Kept, Run-IsKept, new_relay-IsKept}
use mathlib.Core.List.{append-nil}

module _ (sid server_id : Text) {I : Type 0} (source : Source I) (sink : Sink) where
  -- Items that are read, and chunks that are received, without a failure.
  pub data Moves : Pipe I → Pipe I → Type 0 where
    done : {p : Pipe I} → Moves p p
    reads_one :
        {p r : Pipe I} (i : I) (rest : List I)
        → p.pending ≡ i ∷ rest
        → p.reading ≡ true
        → Moves (after_read sid server_id rest (source.verdict i) p) r
        → Moves p r
    receives_one :
        {p r : Pipe I} (c : Chunk) (rest : List Chunk)
        → p.stream ≡ c ∷ rest
        → p.writing ≡ true
        → Moves (after_receive rest (sink.verdict c) p) r
        → Moves p r

  Moves-Kept :
      {p q : Pipe I}
      → Moves p q
      → Kept sid server_id source sink p
      → Kept sid server_id source sink q
  Moves-Kept done k = k
  Moves-Kept (reads_one i rest h r ms) k =
      Moves-Kept ms (Move-Kept sid server_id source sink (reads i rest h r) k)
  Moves-Kept (receives_one c rest h w ms) k =
      Moves-Kept ms (Move-Kept sid server_id source sink (receives c rest h w) k)

  -- The item does not end the loop.
  abbrev pub Readable : List I → Type 0
  Readable is = All (λ i. source.verdict i ≢ stop) is

  -- What the moves below leave as it is.
  record Same (p q : Pipe I) : Type 0 where
    said : q.said ≡ p.said
    writing : q.writing ≡ p.writing
    reading : q.reading ≡ p.reading
    closed : q.closed ≡ p.closed

  after_read-Same :
      (p : Pipe I) (rest : List I) (v : Verdict)
      → v ≢ stop
      → Same p (after_read sid server_id rest v p)
        × ((after_read sid server_id rest v p).pending ≡ rest)
  unfolding after_read
  after_read-Same p rest (forward b) h =
      (record { said = refl; writing = refl; reading = refl; closed = refl }, refl)
  after_read-Same p rest skip h =
      (record { said = refl; writing = refl; reading = refl; closed = refl }, refl)
  after_read-Same p rest stop h = absurd (h refl)

  trans : {p q r : Pipe I} → Same p q → Same q r → Same p r
  trans s t = record {
    said = t.said ∙ s.said;
    writing = t.writing ∙ s.writing;
    reading = t.reading ∙ s.reading;
    closed = t.closed ∙ s.closed;
  }

  read_all :
      (is : List I) (p : Pipe I)
      → p.pending ≡ is
      → p.reading ≡ true
      → Readable is
      → (q : Pipe I) × Moves p q × (q.pending ≡ []) × Same p q
  read_all [] p h r a =
      (p, done, h, record { said = refl; writing = refl; reading = refl; closed = refl })
  read_all (i ∷ is) p h r a =
      let p' = after_read sid server_id is (source.verdict i) p in
      let (s, e) = after_read-Same p is (source.verdict i) a.0 in
      let (q, ms, z, t) = read_all is p' e (s.reading ∙ r) a.1 in
      (q, reads_one i is h r ms, z, trans s t)

  after_receive-Same :
      (p : Pipe I) (rest : List Chunk) (v : Verdict)
      → then_ends v (ends sink rest) ≡ false
      → Same p (after_receive rest v p)
        × ((after_receive rest v p).stream ≡ rest)
        × ((after_receive rest v p).pending ≡ p.pending)
        × (ends sink rest ≡ false)
  unfolding after_receive
  after_receive-Same p rest (forward b) h =
      (record { said = refl; writing = refl; reading = refl; closed = refl }, refl, refl, h)
  after_receive-Same p rest skip h =
      (record { said = refl; writing = refl; reading = refl; closed = refl }, refl, refl, h)
  after_receive-Same p rest stop h = absurd (ground arith)

  receive_all :
      (cs : List Chunk) (p : Pipe I)
      → p.stream ≡ cs
      → p.writing ≡ true
      → ends sink cs ≡ false
      → (q : Pipe I) × Moves p q × (q.stream ≡ []) × (q.pending ≡ p.pending) × Same p q
  receive_all [] p h w e =
      (p, done, h, refl, record { said = refl; writing = refl; reading = refl; closed = refl })
  receive_all (c ∷ cs) p h w e =
      let p' = after_receive cs (sink.verdict c) p in
      let (s, g, k, e') = after_receive-Same p cs (sink.verdict c) e in
      let (q, ms, z, y, t) = receive_all cs p' g (s.writing ∙ w) e' in
      (q, receives_one c cs h w ms, z, y ∙ k, trans s t)

  joined : {p q r : Pipe I} → Moves p q → Moves q r → Moves p r
  joined done ns = ns
  joined (reads_one i rest h r ms) ns = reads_one i rest h r (joined ms ns)
  joined (receives_one c rest h w ms) ns = receives_one c rest h w (joined ms ns)

  all_delivered :
      (p : Pipe I)
      → Kept sid server_id source sink p
      → p.reading ≡ true
      → p.writing ≡ true
      → p.closed ≡ false
      → Readable p.pending
      → (q : Pipe I) × Moves p q × (q.said ≡ p.said) × (q.delivered ≡ p.said)
  all_delivered p k r w c a =
      let (q, ms, z, s) = read_all p.pending p refl r a in
      let kq = Moves-Kept ms k in
      let (u, ns, y, x, t) =
        receive_all q.stream q refl (s.writing ∙ w) (kq.ended (s.writing ∙ w) ∙ (s.closed ∙ c)) in
      let ku = Moves-Kept ns kq in
      let b = trans s t in
      let e = ku.whole (b.writing ∙ w) (b.reading ∙ r) (b.closed ∙ c) in
      let e' : u.said ≡ (u.delivered ++ []) ++ [] =
        e
        ∙ (ap (λ l. (u.delivered ++ payload sink l) ++ said_in source u.pending) y
            ∙ ap (λ l. (u.delivered ++ []) ++ said_in source l) (x ∙ z)) in
      (
        u,
        joined ms ns,
        b.said,
        sym (append-nil u.delivered) ∙ (sym (append-nil (u.delivered ++ [])) ∙ (sym e' ∙ b.said)),
      )

module _ (sid server_id : Text) {I J : Type 0} (browser : Source I) (server : Source J)
    (at_agent at_gateway : Sink) where
  pub up_all :
      (s : Relay I J) {p q : Pipe I}
      → Moves sid server_id browser at_agent p q
      → (t : Relay I J)
      → Run sid server_id browser server at_agent at_gateway s (record t { up = p })
      → Run sid server_id browser server at_agent at_gateway s (record t { up = q })
  up_all s done t r = r
  up_all s (reads_one i rest h g ms) t r = up_all s ms t (next r (up_moves _ (reads i rest h g)))
  up_all s (receives_one c rest h g ms) t r =
      up_all s ms t (next r (up_moves _ (receives c rest h g)))

  -- In every state that the proxies reach in which both proxies are open and the two loops of the
  -- browser's direction run, if no item that is still to be read ends the reading loop, the proxies can
  -- go on by steps of those two loops, none of which is a failure, until the agent has written all
  -- that the browser has said since the agent's acknowledgement, and nothing else.
  pub Run-delivers :
      {s : Relay I J}
      → Run sid server_id browser server at_agent at_gateway (new_relay sid server_id) s
      → s.gateway_open ≡ true
      → s.agent_open ≡ true
      → s.up.reading ≡ true
      → s.up.writing ≡ true
      → Readable sid server_id browser at_agent s.up.pending
      → (q : Pipe I) × Moves sid server_id browser at_agent s.up q
        × Run sid server_id browser server at_agent at_gateway s (record s { up = q })
        × (q.said ≡ s.up.said)
        × (q.delivered ≡ s.up.said)
  Run-delivers {s} r gateway_open agent_open reading writing a =
      let k =
        Run-IsKept sid server_id browser server at_agent at_gateway r
          (new_relay-IsKept sid server_id browser server at_agent at_gateway) in
      let (q, ms, e, d) =
        all_delivered sid server_id browser at_agent s.up k.up reading writing
          (k.gateway_closed gateway_open) a in
      (q, ms, up_all s ms s here, e, d)

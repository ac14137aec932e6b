-- ===== src/Vnc/Adapter/Steady.antt =====
-- Through the adapter the chunks of the stream are one sequence of bytes.
use conduit_bmc.Base.{
  take-length, drop-length, leb, if◌then◌else◌, Bool-cases, length, take, drop, length-append,
  take-append_le, drop-append_le, take-append_ge, drop-append_ge, Text, Result, ok, ℕ, ◌+◌, ◌-◌,
  ◌≤◌, ◌≡◌, refl, sym, ap, ◌∙◌, inl, inr, true, false, List, [], ◌∷◌, ◌++◌, arith,
}
use conduit_bmc.Rfb.Stream.{Error}
use conduit_bmc.Streaming.{Chunk, data_chunk}
use conduit_bmc.Vnc.Proxy.Admits.{IsSteady}
use conduit_bmc.Vnc.Adapter.{Adapter, receive_loop, read_full, write, wire}
use mathlib.Core.List.{append-nil, append_assoc}

-- The bytes of the chunks before the first that closes the stream.
unfoldable pub incoming : List Chunk → List ℕ
incoming [] = []
incoming (c ∷ cs) =
    let rest = incoming cs in
    if c.is_handshake then rest else if c.close_stream then [] else c.chunk_data ++ rest

unfoldable pub outgoing : List Chunk → List ℕ
outgoing [] = []
outgoing (c ∷ cs) = c.chunk_data ++ outgoing cs

outgoing-append : (cs ds : List Chunk) → outgoing (cs ++ ds) ≡ outgoing cs ++ outgoing ds
unfolding outgoing
outgoing-append [] ds = refl
outgoing-append (c ∷ cs) ds =
    ap (λ l. c.chunk_data ++ l) (outgoing-append cs ds)
    ∙ sym (append_assoc c.chunk_data (outgoing cs) (outgoing ds))

-- The loop takes the first bytes that arrive and leaves the others, in the buffer and the stream.
record Taken (want : ℕ) (got : List ℕ) (cs : List Chunk)
    (r : Result Error (List ℕ) × (List ℕ × List Chunk)) : Type 0 where
  buffered : List ℕ
  stream : List Chunk
  result : r ≡ (ok (got ++ take (want - length got) (incoming cs)), (buffered, stream))
  left : buffered ++ incoming stream ≡ drop (want - length got) (incoming cs)

full :
    (want : ℕ) (got : List ℕ) (cs : List Chunk)
    → want - length got ≡ 0
    → Taken want got cs (ok got, ([], cs))
full want got cs z = record {
  buffered = [];
  stream = cs;
  result = rw (z, append-nil got) refl;
  left = rw z refl;
}

same_rest :
    {want : ℕ} {got : List ℕ} {cs ds : List Chunk}
    {r r' : Result Error (List ℕ) × (List ℕ × List Chunk)}
    → r' ≡ r
    → incoming ds ≡ incoming cs
    → Taken want got cs r
    → Taken want got ds r'
same_rest {want} {got} e i t = record {
  buffered = t.buffered;
  stream = t.stream;
  result =
      e
      ∙ (t.result
          ∙ ap (λ l. (ok (got ++ take (want - length got) l), (t.buffered, t.stream))) (sym i));
  left = t.left ∙ ap (drop (want - length got)) (sym i);
}

-- A whole chunk is added.
whole :
    (want : ℕ) (got bs : List ℕ) (cs ds : List Chunk)
    {r : Result Error (List ℕ) × (List ℕ × List Chunk)}
    → incoming ds ≡ bs ++ incoming cs
    → length bs ≤ want - length got
    → Taken want (got ++ bs) cs r
    → Taken want got ds r
whole want got bs cs ds i h t =
    let e : want - length (got ++ bs) ≡ want - length got - length bs =
      omega (arith, length-append got bs) in
    record {
      buffered = t.buffered;
      stream = t.stream;
      result =
          t.result
          ∙ ap (λ l. (ok l, (t.buffered, t.stream)))
              (append_assoc got bs _
                ∙ ap (λ l. got ++ l)
                    (ap (λ n. bs ++ take n (incoming cs)) e
                      ∙ (sym (take-append_ge (want - length got) bs (incoming cs) h)
                          ∙ ap (take (want - length got)) (sym i))));
      left =
          t.left
          ∙ (ap (λ n. drop n (incoming cs)) e
              ∙ (sym (drop-append_ge (want - length got) bs (incoming cs) h)
                  ∙ ap (drop (want - length got)) (sym i)));
    }

-- Only the front of a chunk is taken.
part :
    (want : ℕ) (got bs : List ℕ) (cs ds : List Chunk)
    → incoming ds ≡ bs ++ incoming cs
    → want - length got ≤ length bs
    → Taken want got ds (ok (got ++ take (want - length got) bs), (drop (want - length got) bs, cs))
part want got bs cs ds i h = record {
  buffered = drop (want - length got) bs;
  stream = cs;
  result =
      ap (λ l. (ok (got ++ l), (drop (want - length got) bs, cs)))
        (sym (take-append_le (want - length got) bs (incoming cs) h)
          ∙ ap (take (want - length got)) (sym i));
  left =
      sym (drop-append_le (want - length got) bs (incoming cs) h)
      ∙ ap (drop (want - length got)) (sym i);
}

receive_loop-Taken :
    (want : ℕ) (got : List ℕ) (cs : List Chunk)
    → length got ≤ want
    → want ≤ length got + length (incoming cs)
    → Taken want got cs (receive_loop want got cs)
unfolding receive_loop incoming
receive_loop-Taken want got [] h k = same_rest (ground arith) refl (full want got [] (omega arith))
receive_loop-Taken want got (c ∷ cs) h k = elim (Bool-cases (leb want (length got))) [
  | inl z ↦ same_rest (rw z refl) refl (full want got (c ∷ cs) (ground (arith, z)))
  | inr n ↦ elim (Bool-cases c.is_handshake) [
    | inl y ↦
        same_rest (rw (n, y) refl) (rw y refl)
          (receive_loop-Taken want got cs h (ground (arith, y, k)))
    | inr y ↦ elim (Bool-cases c.close_stream) [
      | inl x ↦ absurd (ground (arith, n, y, x, k))
      | inr x ↦ elim (Bool-cases (leb (length c.chunk_data) (want - length got))) [
        | inl w ↦ same_rest (rw (n, y, x, w) refl) refl (
            whole want got c.chunk_data cs (c ∷ cs) (rw (y, x) refl) (ground (arith, w)) (
              receive_loop-Taken want (got ++ c.chunk_data) cs
                (ground (arith, w, h, length-append got c.chunk_data))
                (ground (
                  arith,
                  y,
                  x,
                  k,
                  length-append got c.chunk_data,
                  length-append c.chunk_data (incoming cs),
                ))))
        | inr w ↦
            same_rest (rw (n, y, x, w) refl) refl
              (part want got c.chunk_data cs (c ∷ cs) (rw (y, x) refl) (ground (arith, w)))
      ]
    ]
  ]
]

abbrev pub arriving : Adapter → List ℕ
arriving a = a.buffered ++ incoming a.stream

pub record Read (bs rest : List ℕ) (a : Adapter) : Type 0 where
  pub after : Adapter
  pub result : read_full (length bs) a ≡ (ok bs, after)
  pub left : arriving after ≡ rest
  pub sent : after.sent ≡ a.sent
  pub sends : after.sends ≡ a.sends

from_buffer :
    (bs rest : List ℕ) (a : Adapter)
    → arriving a ≡ bs ++ rest
    → leb (length bs) (length a.buffered) ≡ true
    → Read bs rest a
unfolding read_full
from_buffer bs rest a e h =
    let n : length bs ≤ length a.buffered = ground (arith, h) in
    let t : take (length bs) a.buffered ≡ bs =
      sym (take-append_le (length bs) a.buffered (incoming a.stream) n)
      ∙ (ap (take (length bs)) e ∙ take-length bs rest) in
    record {
      after = record a { buffered = drop (length bs) a.buffered };
      result = rw h (rw t refl);
      left =
          sym (drop-append_le (length bs) a.buffered (incoming a.stream) n)
          ∙ (ap (drop (length bs)) e ∙ drop-length bs rest);
      sent = refl;
      sends = refl;
    }

from_stream :
    (bs rest : List ℕ) (a : Adapter)
    → arriving a ≡ bs ++ rest
    → leb (length bs) (length a.buffered) ≡ false
    → Read bs rest a
unfolding read_full
from_stream bs rest a e h =
    let n : length a.buffered ≤ length bs = ground (arith, h) in
    let k : length bs + length rest ≡ length a.buffered + length (incoming a.stream) =
      omega
        (arith, ap length e, length-append bs rest, length-append a.buffered (incoming a.stream)) in
    let t = receive_loop-Taken (length bs) a.buffered a.stream n (omega arith) in
    let b : a.buffered ++ take (length bs - length a.buffered) (incoming a.stream) ≡ bs =
      sym (take-append_ge (length bs) a.buffered (incoming a.stream) n)
      ∙ (ap (take (length bs)) e ∙ take-length bs rest) in
    record {
      after = record a { buffered = t.buffered; stream = t.stream };
      result = rw h (
          ap (λ r. (r.0, record a { buffered = r.1.0; stream = r.1.1 })) t.result
          ∙ ap (λ l. (ok l, record a { buffered = t.buffered; stream = t.stream })) b);
      left =
          t.left
          ∙ (sym (drop-append_ge (length bs) a.buffered (incoming a.stream) n)
              ∙ (ap (drop (length bs)) e ∙ drop-length bs rest));
      sent = refl;
      sends = refl;
    }

pub reads_all : (bs rest : List ℕ) (a : Adapter) → arriving a ≡ bs ++ rest → Read bs rest a
reads_all bs rest a e = elim (Bool-cases (leb (length bs) (length a.buffered))) [
  | inl h ↦ from_buffer bs rest a e h
  | inr h ↦ from_stream bs rest a e h
]

pub writes_all :
    (bs : List ℕ) (a : Adapter)
    → a.sends ≡ []
    → write bs a
      ≡ (ok tt, record a { sent = a.sent ++ (data_chunk a.session_id a.server_id bs ∷ []) })
unfolding write
writes_all bs a h = ground (arith, h)

pub added :
    (cs : List Chunk) (session_id server_id : Text) (bs : List ℕ)
    → outgoing (cs ++ (data_chunk session_id server_id bs ∷ [])) ≡ outgoing cs ++ bs
unfolding outgoing data_chunk
added cs session_id server_id bs =
    outgoing-append cs (data_chunk session_id server_id bs ∷ [])
    ∙ ap (λ l. outgoing cs ++ l) (append-nil bs)

-- The adapter is a steady connection while every chunk can be sent.
unfoldable pub steady : IsSteady wire
unfolding wire read_full write
steady = record {
  arriving = arriving;
  output = λ a. outgoing a.sent;
  IsHealthy = λ a. a.sends ≡ [];
  reads = λ bs rest a h e.
      let r = reads_all bs rest a e in (r.after, r.result, r.left, ap outgoing r.sent, r.sends ∙ h);
  writes = λ bs a h. (
    record a { sent = a.sent ++ (data_chunk a.session_id a.server_id bs ∷ []) },
    writes_all bs a h,
    refl,
    added a.sent a.session_id a.server_id bs,
    h,
  );
}

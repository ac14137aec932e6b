-- ===== src/Vnc/Adapter.antt =====
-- `vncStreamAdapter` of local-agent/internal/agent/streaming.go: the gateway's stream as a connection.
pub mod Steady
use conduit_bmc.Base.{
  leb, ◌==◌, if◌then◌else◌, length, take, drop, Text, Result, ok, err, ℕ, ◌+◌, ◌-◌, Bool, true,
  false, List, [], ◌∷◌, ◌++◌,
}
use conduit_bmc.Rfb.Stream.{Error, read_failed, error_after, write_failed}
use conduit_bmc.Streaming.{Chunk, data_chunk}
use conduit_bmc.Vnc.Proxy.{Wire}

-- What is left of the chunk that was received last, the chunks that will be received before an error,
-- whether each of the next chunks can be sent (when the list ends, all can), and those that were sent.
pub record Adapter : Type 0 where
  pub session_id : Text
  pub server_id : Text
  pub buffered : List ℕ
  pub stream : List Chunk
  pub sends : List Bool
  pub sent : List Chunk

abbrev failed_read : ℕ → List ℕ → Error
failed_read want got = if length got == 0 then read_failed want else error_after want (length got)

-- `ReadFull` over `Read`, once the buffer is empty: what it returns, the new buffer and the chunks left.
-- A chunk of a handshake is skipped, and one that closes the stream is an error.
unfoldable pub receive_loop :
    ℕ → List ℕ → List Chunk → Result Error (List ℕ) × (List ℕ × List Chunk)
receive_loop want got [] =
    if leb want (length got) then (ok got, ([], [])) else (err (failed_read want got), ([], []))
receive_loop want got (c ∷ cs) =
    let after = receive_loop want (if c.is_handshake then got else got ++ c.chunk_data) cs in
    if leb want (length got)
    then (ok got, ([], c ∷ cs))
    else if c.is_handshake
    then after
    else if c.close_stream
    then (err (failed_read want got), ([], cs))
    else if leb (length c.chunk_data) (want - length got)
    then after
    else (
      ok (got ++ take (want - length got) c.chunk_data),
      (drop (want - length got) c.chunk_data, cs),
    )

unfoldable pub read_full : ℕ → Adapter → Result Error (List ℕ) × Adapter
read_full n a =
    if leb n (length a.buffered)
    then (ok (take n a.buffered), record a { buffered = drop n a.buffered })
    else let (r, (buffered, stream)) = receive_loop n a.buffered a.stream in
      (r, record a { buffered = buffered; stream = stream })

put : List ℕ → Bool → Adapter → Result Error (Unit {0}) × Adapter
put bytes true a =
    (ok tt, record a { sent = a.sent ++ (data_chunk a.session_id a.server_id bytes ∷ []) })
put bytes false a = (err write_failed, a)

next_send : List Bool → Bool × List Bool
next_send [] = (true, [])
next_send (b ∷ bs) = (b, bs)

unfoldable pub write : List ℕ → Adapter → Result Error (Unit {0}) × Adapter
unfolding put next_send
write bytes a = let (b, bs) = next_send a.sends in put bytes b (record a { sends = bs })

abbrev pub wire : Wire Adapter
unfolding read_full write
wire = record { read_bytes = read_full; write = write }

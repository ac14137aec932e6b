-- ===== src/Sol/CircularBuffer.antt =====
-- local-agent/pkg/sol/circular_buffer.go. The mutex makes each method one step, so a method is a
-- function from the buffer to the new buffer; `none` is a Go panic.
pub mod Contents
pub mod History
mod Tests
use conduit_bmc.Base.{
  ℕ, zero, suc, ◌+◌, ◌-◌, ◌%◌, ltb, ◌==◌, if◌then◌else◌, List, [], ◌∷◌, ◌++◌, Option, none, some,
  length, set, take, drop, replicate,
}

-- `bytes` is the field `data`.
pub record CircularBuffer : Type 0 where
  pub bytes : List ℕ
  pub size : ℕ
  pub write_pos : ℕ
  pub count : ℕ

pub new_circular_buffer : ℕ → CircularBuffer
new_circular_buffer size = record {
  bytes = replicate size 0;
  size = size;
  write_pos = 0;
  count = 0;
}

-- One round of the loop of `Write`. An index outside `data` panics.
pub write_byte : CircularBuffer → ℕ → Option CircularBuffer
write_byte cb b =
    if ltb cb.write_pos (length cb.bytes)
    then some (record cb {
      bytes = set cb.bytes cb.write_pos b;
      write_pos = (cb.write_pos + 1) % cb.size;
      count = if ltb cb.count cb.size then cb.count + 1 else cb.count;
    })
    else none

pub write : CircularBuffer → List ℕ → Option CircularBuffer
unfolding write_byte
write cb [] = some cb
write cb (b ∷ bs) = elim (write_byte cb b) [ none ↦ none | some cb' ↦ write cb' bs ]

-- Go's `copy(dst[at:], src)`, with the whole of `dst` as the result.
pub copy_at : ℕ → List ℕ → List ℕ → List ℕ
copy_at at dst src = take at dst ++ (take (length dst - at) src ++ drop (at + length src) dst)

pub read : CircularBuffer → List ℕ
read cb =
    if cb.count == 0
    then []
    else if ltb cb.count cb.size
    then copy_at 0 (replicate cb.count 0) (take cb.count cb.bytes)
    else copy_at (cb.size - cb.write_pos)
        (copy_at 0 (replicate cb.count 0) (drop cb.write_pos cb.bytes)) (take cb.write_pos cb.bytes)

pub capacity : CircularBuffer → ℕ
capacity cb = cb.size

pub available : CircularBuffer → ℕ
available cb = cb.count

pub clear : CircularBuffer → CircularBuffer
clear cb = record cb { write_pos = 0; count = 0 }

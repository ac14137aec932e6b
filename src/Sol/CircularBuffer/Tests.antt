-- ===== src/Sol/CircularBuffer/Tests.antt =====
-- Runs of the circular buffer, and its theorems at concrete inputs.
use conduit_bmc.Base.{◌≡◌, refl, List, [], ◌∷◌, none, some, min, length, arith}
use conduit_bmc.Sol.CircularBuffer.{
  CircularBuffer, new_circular_buffer, write, read, copy_at, available,
}
use conduit_bmc.Sol.CircularBuffer.History.{Op, writes, clears, run, history, last, read-run}

abbrev wrapped : CircularBuffer
wrapped = record { bytes = 4 ∷ 2 ∷ 3 ∷ []; size = 3; write_pos = 1; count = 3 }

write_wraps : write (new_circular_buffer 3) (1 ∷ 2 ∷ 3 ∷ 4 ∷ []) ≡ some wrapped
unfolding write new_circular_buffer
write_wraps = refl

read-wrapped : read wrapped ≡ 2 ∷ 3 ∷ 4 ∷ []
unfolding read copy_at
read-wrapped = refl

-- A buffer of size 0 panics on the first byte.
write_empty_panics : write (new_circular_buffer 0) (7 ∷ []) ≡ none
unfolding write new_circular_buffer
write_empty_panics = refl

abbrev script : List Op
script = writes (9 ∷ 8 ∷ []) ∷ clears ∷ writes (1 ∷ 2 ∷ []) ∷ writes (3 ∷ 4 ∷ []) ∷ []

read-run_example :
    (cb : CircularBuffer) × (run (new_circular_buffer 3) script ≡ some cb)
    × (read cb ≡ last 3 (history [] script))
    × (available cb ≡ min 3 (length (history [] script)))
read-run_example = read-run 3 script (omega arith)

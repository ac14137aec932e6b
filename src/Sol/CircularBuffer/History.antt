-- ===== src/Sol/CircularBuffer/History.antt =====
-- The buffer against the history of what was written to it since it was last cleared.
use conduit_bmc.Base.{
  ℕ, zero, suc, ◌-◌, ◌<◌, ◌≡◌, refl, ap, ◌∙◌, List, [], ◌∷◌, ◌++◌, Option, none, some, arith, min,
  length, drop, length-append, length-drop, length-replicate, drop-append_le, lt→ltb, drop-all,
}
use conduit_bmc.Sol.CircularBuffer.{
  CircularBuffer, new_circular_buffer, write, read, available, clear,
}
use conduit_bmc.Sol.CircularBuffer.Contents.{
  IsValid, contents, push_last, written, write_byte-written, written-IsValid, contents-written,
  read-contents, length-contents,
}
use native.Mathlib.Decide.{dec_lt}
use mathlib.Core.List.{append-nil, append_assoc}

pub data Op : Type 0 where
  writes : List ℕ → Op
  clears : Op

-- The methods that change the buffer, called one after the other.
pub run : CircularBuffer → List Op → Option CircularBuffer
run cb [] = some cb
run cb (writes bs ∷ ops) = elim (write cb bs) [ none ↦ none | some cb' ↦ run cb' ops ]
run cb (clears ∷ ops) = run (clear cb) ops

-- What was written since the last `clear`, on top of `h`.
pub history : List ℕ → List Op → List ℕ
history h [] = h
history h (writes bs ∷ ops) = history (h ++ bs) ops
history h (clears ∷ ops) = history [] ops

-- The last `n` elements of a list, or all of a shorter one.
abbrev pub last : ℕ → List ℕ → List ℕ
last n xs = drop (length xs - n) xs

-- The buffer is valid, of the given size, and holds the end of the history.
pub record Holds (size : ℕ) (h : List ℕ) (cb : CircularBuffer) : Type 0 where
  pub valid : IsValid cb
  pub sized : cb.size ≡ size
  pub held : contents cb ≡ last size h

drop-one : (n : ℕ) (xs : List ℕ) → n < length xs → drop 1 (drop n xs) ≡ drop (suc n) xs
drop-one n [] h = absurd (omega arith)
drop-one zero (x ∷ xs) h = refl
drop-one (suc n) (x ∷ xs) h = drop-one n xs (omega arith)

push_last-last :
    (n : ℕ) (h : List ℕ) (b : ℕ) → 0 < n → push_last n (last n h) b ≡ last n (h ++ (b ∷ []))
unfolding push_last
push_last-last n h b p = elim (dec_lt (length h) n) [
  | yes short ↦
      let z : length h - n ≡ 0 = omega arith in
      let z' : length (h ++ (b ∷ [])) - n ≡ 0 = omega (arith, length-append h (b ∷ [])) in
      rw (z, z', lt→ltb _ _ short) refl
  | no full ↦ ground (
    arith,
    length-append h (b ∷ []),
    length-drop (length h - n) h,
    drop-one (length h - n) h,
    drop-append_le (suc (length h - n)) h (b ∷ []),
  )
]

write-Holds :
    (size : ℕ) (h bs : List ℕ) (cb : CircularBuffer)
    → Holds size h cb
    → (cb' : CircularBuffer) × (write cb bs ≡ some cb') × Holds size (h ++ bs) cb'
unfolding write
write-Holds size h [] cb w = (cb, refl, rw append-nil w)
write-Holds size h (b ∷ bs) cb w =
    let (cb', e, w') = write-Holds size (h ++ (b ∷ [])) bs (written cb b) step in
    (cb', rw (write_byte-written cb b w.valid, write) e, rw append_assoc at w')
  where
    step : Holds size (h ++ (b ∷ [])) (written cb b)
    step = record {
      valid = written-IsValid cb b w.valid;
      sized = w.sized;
      held =
          contents-written cb b w.valid
          ∙ rw (w.held, w.sized)
              (push_last-last size h b (omega (arith, w.valid.nonempty, w.sized)));
    }

clear-Holds :
    (size : ℕ) (h : List ℕ) (cb : CircularBuffer) → Holds size h cb → Holds size [] (clear cb)
unfolding clear contents
clear-Holds size h cb w = record {
  valid = ground arith;
  sized = w.sized;
  held = ground (arith, drop-all {A = ℕ} (0 - size) []);
}

run-Holds :
    (size : ℕ) (h : List ℕ) (ops : List Op) (cb : CircularBuffer)
    → Holds size h cb
    → (cb' : CircularBuffer) × (run cb ops ≡ some cb') × Holds size (history h ops) cb'
unfolding run history
run-Holds size h [] cb w = (cb, refl, w)
run-Holds size h (writes bs ∷ ops) cb w =
    let (cb', e, w') = write-Holds size h bs cb w in
    let (cb'', e', w'') = run-Holds size (h ++ bs) ops cb' w' in (cb'', rw (e, run) e', w'')
run-Holds size h (clears ∷ ops) cb w = run-Holds size [] ops (clear cb) (clear-Holds size h cb w)

new-Holds : (size : ℕ) → 0 < size → Holds size [] (new_circular_buffer size)
unfolding new_circular_buffer contents
new-Holds size p = record {
  valid = ground (arith, length-replicate {A = ℕ} size 0);
  sized = refl;
  held = ground (arith, drop-all {A = ℕ} (0 - size) []);
}

-- From a new buffer of a positive size, no sequence of `Write` and `Clear` calls panics, and then
-- `Read` returns the last `size` bytes written since the last `Clear`, oldest first (all of them if
-- there are fewer), and `Available` is their number.
pub read-run :
    (size : ℕ) (ops : List Op)
    → 0 < size
    → (cb : CircularBuffer) × (run (new_circular_buffer size) ops ≡ some cb)
      × (read cb ≡ last size (history [] ops))
      × (available cb ≡ min size (length (history [] ops)))
unfolding available
read-run size ops p =
    let (cb, e, w) = run-Holds size [] ops (new_circular_buffer size) (new-Holds size p) in
    (
      cb,
      e,
      read-contents cb w.valid ∙ w.held,
      omega (
        arith,
        length-contents cb w.valid,
        ap length (w.held),
        length-drop (length (history [] ops) - size) (history [] ops),
      ),
    )

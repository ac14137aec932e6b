-- ===== src/Rfb/Stream/Chunks.antt =====
-- Reading does not depend on how the network cuts the stream into pieces.
use conduit_bmc.Base.{
  take-nil, drop-nil, ℕ, ◌+◌, ◌-◌, ◌≤◌, ◌<◌, ◌≡◌, refl, ap, ◌∙◌, inl, inr, leb, ◌==◌, List, [], ◌∷◌,
  ◌++◌, Result, ok, err, length, take, drop, arith, length-append, take-append_le, drop-append_le,
  take-append_ge, drop-append_ge, Bool-cases, leb→le,
}
use conduit_bmc.Rfb.Stream.{
  Event, chunk, broken, Conn, read_loop, read_bytes, Error, immediate_eof, eof_after, error_after,
  read_failed,
}
use native.Mathlib.Decide.{dec_lt}
use mathlib.Core.List.{append-nil, append_assoc}

-- The bytes that arrive before the connection ends or breaks.
unfoldable pub arriving : List Event → List ℕ
arriving [] = []
arriving (broken ∷ es) = []
arriving (chunk bs ∷ es) = bs ++ arriving es

-- `read_loop` takes the first bytes that arrive and leaves the others.
read_loop-enough :
    (want : ℕ) (got : List ℕ) (es : List Event)
    → length got ≤ want
    → want ≤ length got + length (arriving es)
    → ((read_loop want got es).0 ≡ ok (got ++ take (want - length got) (arriving es)))
      × (arriving (read_loop want got es).1 ≡ drop (want - length got) (arriving es))
unfolding read_loop arriving
read_loop-enough want got [] h k =
    ground (arith, append-nil got, take-nil ℕ (want - length got), drop-nil ℕ (want - length got))
read_loop-enough want got (broken ∷ es) h k =
    ground (arith, append-nil got, take-nil ℕ (want - length got), drop-nil ℕ (want - length got))
read_loop-enough want got (chunk bs ∷ es) h k = elim (Bool-cases (leb want (length got))) [
  | inl full ↦
      let z : want - length got ≡ 0 = omega (arith, leb→le want (length got) full) in
      rw (full, z) (rw (append-nil got), refl)
  | inr more ↦ ground (
    arith,
    length-append got bs,
    length-append bs (arriving es),
    read_loop-enough want (got ++ bs) es,
    append_assoc got bs (take (want - length got - length bs) (arriving es)),
    take-append_ge (want - length got) bs (arriving es),
    drop-append_ge (want - length got) bs (arriving es),
    take-append_le (want - length got) bs (arriving es),
    drop-append_le (want - length got) bs (arriving es),
  )
]

-- With too few bytes the loop fails.
read_loop-short :
    (want : ℕ) (got : List ℕ) (es : List Event)
    → length got + length (arriving es) < want
    → (e : Error) × ((read_loop want got es).0 ≡ err e)
unfolding read_loop arriving
read_loop-short want got [] h = elim (Bool-cases (length got == 0)) [
  | inl e ↦ (immediate_eof want, ground arith)
  | inr e ↦ (eof_after want (length got), ground arith)
]
read_loop-short want got (broken ∷ es) h = elim (Bool-cases (length got == 0)) [
  | inl e ↦ (read_failed want, ground arith)
  | inr e ↦ (error_after want (length got), ground arith)
]
read_loop-short want got (chunk bs ∷ es) h =
    let (e, p) =
      read_loop-short want (got ++ bs) es
        (omega (arith, length-append got bs, length-append bs (arriving es))) in
    (e, ground (arith, p, length-append bs (arriving es)))

-- A read of `n` bytes by what has arrived: the first `n` bytes, with the rest left to later reads, or
-- an error when there are fewer. The cuts between the pieces play no part.
pub data Reads (n : ℕ) (c : Conn) : Result Error (List ℕ) × Conn → Type 0 where
  got_all :
      (c' : Conn)
      → n ≤ length (arriving c.incoming)
      → arriving c'.incoming ≡ drop n (arriving c.incoming)
      → c'.sent ≡ c.sent
      → c'.faults ≡ c.faults
      → Reads n c (ok (take n (arriving c.incoming)), c')
  got_few :
      (e : Error) (c' : Conn)
      → length (arriving c.incoming) < n
      → c'.sent ≡ c.sent
      → Reads n c (err e, c')

read_loop-Reads :
    (n : ℕ) (c : Conn) (r : Result Error (List ℕ)) (es : List Event)
    → r ≡ (read_loop n [] c.incoming).0
    → es ≡ (read_loop n [] c.incoming).1
    → Reads n c (r, record c { incoming = es })
read_loop-Reads n c (ok bs) es p q = elim (dec_lt (length (arriving c.incoming)) n) [
  | yes few ↦ let (e, h) = read_loop-short n [] c.incoming (omega arith) in cc (p, h)
  | no enough ↦
      let (h, k) = read_loop-enough n [] c.incoming (omega arith) (omega arith) in
      let z : n - 0 ≡ n = omega arith in
      let w : bs ≡ take n (arriving c.incoming) = ground (arith, p, rw z at h) in
      rw w
        (got_all (record c { incoming = es }) (omega arith) (ap arriving q ∙ (rw z at k)) refl refl)
]
read_loop-Reads n c (err e) es p q = elim (dec_lt (length (arriving c.incoming)) n) [
  | yes few ↦ got_few e (record c { incoming = es }) few refl
  | no enough ↦
      let (h, k) = read_loop-enough n [] c.incoming (omega arith) (omega arith) in cc (p, h)
]

-- `ReadBytes(n)` returns the first `n` bytes that arrive and leaves the rest, however they are cut
-- into pieces, and it fails when fewer arrive.
pub read_bytes-Reads : (n : ℕ) (c : Conn) → Reads n c (read_bytes n c)
unfolding read_bytes
read_bytes-Reads n c =
    read_loop-Reads n c (read_loop n [] c.incoming).0 (read_loop n [] c.incoming).1 refl refl

-- ===== src/Sol/CircularBuffer/Contents.antt =====
-- What a valid buffer holds, oldest byte first, and how one written byte changes it.
use conduit_bmc.Base.{
  ℕ, zero, suc, ◌+◌, ◌-◌, ◌%◌, ◌≤◌, ◌<◌, ◌≡◌, refl, ap, ◌∙◌, ltb, if◌then◌else◌, List, [], ◌∷◌,
  ◌++◌, some, arith, length, set, take, drop, replicate, length-set, length-take, length-drop,
  length-replicate, length-append, take-all, drop-all, take-append_ge, drop-append_ge,
}
use conduit_bmc.Sol.CircularBuffer.{CircularBuffer, write_byte, read, copy_at}
use native.Mathlib.Decide.{dec_lt}
use native.Mathlib.Nat.{mod-eq_of_lt}
use mathlib.Core.List.{append-nil, append_assoc}

pub record IsValid (cb : CircularBuffer) : Type 0 where
  pub nonempty : 0 < cb.size
  pub storage : length cb.bytes ≡ cb.size
  pub in_range : cb.write_pos < cb.size
  pub counted : cb.count ≤ cb.size
  pub growing : cb.count < cb.size → cb.write_pos ≡ cb.count

-- The bytes in the order in which they were written.
unfoldable pub contents : CircularBuffer → List ℕ
contents cb =
    if ltb cb.count cb.size
    then take cb.count cb.bytes
    else drop cb.write_pos cb.bytes ++ take cb.write_pos cb.bytes

-- The last `n` bytes after one more: the oldest falls out of a full window.
unfoldable pub push_last : ℕ → List ℕ → ℕ → List ℕ
push_last n l b = if ltb (length l) n then l ++ (b ∷ []) else drop 1 l ++ (b ∷ [])

take-set :
    (i v : ℕ) (xs : List ℕ) → i < length xs → take (suc i) (set xs i v) ≡ take i xs ++ (v ∷ [])
take-set i v [] h = absurd (omega arith)
take-set zero v (x ∷ xs) h = refl
take-set (suc i) v (x ∷ xs) h = ap (λ l. x ∷ l) (take-set i v xs (omega arith))

drop-set : (i v : ℕ) (xs : List ℕ) → drop (suc i) (set xs i v) ≡ drop (suc i) xs
drop-set i v [] = refl
drop-set zero v (x ∷ xs) = refl
drop-set (suc i) v (x ∷ xs) = drop-set i v xs

drop-one-drop :
    (n : ℕ) (xs ys : List ℕ) → n < length xs → drop 1 (drop n xs ++ ys) ≡ drop (suc n) xs ++ ys
drop-one-drop n [] ys h = absurd (omega arith)
drop-one-drop zero (x ∷ xs) ys h = refl
drop-one-drop (suc n) (x ∷ xs) ys h = drop-one-drop n xs ys (omega arith)

-- A full buffer read from the position behind `i`, which goes round at the end.
wraps : (i size : ℕ) → i < size → size ≤ suc i → (i + 1) % size ≡ 0
wraps i size h k = let e : size ≡ i + 1 = omega arith in rw e (grind arith)

rotate_behind :
    (xs : List ℕ) (size i : ℕ)
    → length xs ≡ size
    → i < size
    → drop ((i + 1) % size) xs ++ take ((i + 1) % size) xs ≡ drop (suc i) xs ++ take (suc i) xs
rotate_behind xs size i e h = elim (dec_lt (suc i) size) [
  | yes p ↦ let k : (i + 1) % size ≡ suc i = grind arith in rw k refl
  | no p ↦
      let k : (i + 1) % size ≡ 0 = wraps i size h (omega arith) in
      rw (k, drop-all (suc i) xs (omega arith), take-all (suc i) xs (omega arith)) (append-nil xs)
]

-- The buffer after `write_byte`.
abbrev pub written : CircularBuffer → ℕ → CircularBuffer
written cb b = record cb {
  bytes = set cb.bytes cb.write_pos b;
  write_pos = (cb.write_pos + 1) % cb.size;
  count = if ltb cb.count cb.size then cb.count + 1 else cb.count;
}

-- A valid buffer never panics on a write.
pub write_byte-written :
    (cb : CircularBuffer) (b : ℕ) → IsValid cb → write_byte cb b ≡ some (written cb b)
unfolding write_byte
write_byte-written cb b v = ground arith

pub written-IsValid : (cb : CircularBuffer) (b : ℕ) → IsValid cb → IsValid (written cb b)
written-IsValid cb b v = ground (
  arith,
  length-set cb.bytes cb.write_pos b,
  λ (h : cb.write_pos + 1 < cb.size). mod-eq_of_lt {n = cb.write_pos + 1} {m = cb.size} h,
)

pub length-contents : (cb : CircularBuffer) → IsValid cb → length (contents cb) ≡ cb.count
unfolding contents
length-contents cb v = ground (
  arith,
  length-append (drop cb.write_pos cb.bytes) (take cb.write_pos cb.bytes),
  length-take cb.write_pos cb.bytes,
  length-drop cb.write_pos cb.bytes,
  length-take cb.count cb.bytes,
)

pub contents-written :
    (cb : CircularBuffer) (b : ℕ)
    → IsValid cb
    → contents (written cb b) ≡ push_last cb.size (contents cb) b
unfolding contents push_last
contents-written cb b v = ground (
  arith,
  length-contents cb v,
  rotate_behind (set cb.bytes cb.write_pos b) cb.size cb.write_pos
      (length-set cb.bytes cb.write_pos b ∙ v.storage) v.in_range,
  take-set cb.write_pos b cb.bytes,
  drop-set cb.write_pos b cb.bytes,
  drop-all (suc cb.write_pos) cb.bytes,
  drop-one-drop cb.write_pos cb.bytes (take cb.write_pos cb.bytes),
  append_assoc (drop (suc cb.write_pos) cb.bytes) (take cb.write_pos cb.bytes) (b ∷ []),
)

copy-front : (dst a : List ℕ) → length a ≤ length dst → copy_at 0 dst a ≡ a ++ drop (length a) dst
unfolding copy_at
copy-front dst a h =
    rw (take-all (length dst - 0) a (omega arith)) (ap (λ k. a ++ drop k dst) (omega arith))

copy-behind : (a b r : List ℕ) → length r ≡ length b → copy_at (length a) (a ++ r) b ≡ a ++ b
unfolding copy_at
copy-behind a b r e =
    let z : length a - length a ≡ 0 = omega arith in
    rw (
      take-append_ge (length a) a r (omega arith),
      take-all (length (a ++ r) - length a) b (omega (arith, length-append a r)),
      drop-append_ge (length a + length b) a r (omega arith),
      drop-all (length a + length b - length a) r (omega arith),
      z,
      append-nil b,
      append-nil a,
    )

-- The two copies of `Read` on a full buffer put `a` in front of `b`.
copy_two :
    (k n : ℕ) (a b : List ℕ)
    → k ≡ length a
    → n ≡ length a + length b
    → copy_at k (copy_at 0 (replicate n 0) a) b ≡ a ++ b
copy_two k n a b e f =
    rw (copy-front (replicate n 0) a (omega (arith, length-replicate {A = ℕ} n 0)), e)
      (copy-behind a b (drop (length a) (replicate n 0)) (
        omega
          (arith, length-drop {A = ℕ} (length a) (replicate n 0), length-replicate {A = ℕ} n 0)))

copy_one : (n : ℕ) (a : List ℕ) → n ≡ length a → copy_at 0 (replicate n 0) a ≡ a
copy_one n a e =
    rw
      (
        copy-front (replicate n 0) a (omega (arith, length-replicate {A = ℕ} n 0)),
        drop-all {A = ℕ} (length a) (replicate n 0) (omega (arith, length-replicate {A = ℕ} n 0)),
      )
      (append-nil a)

pub read-contents : (cb : CircularBuffer) → IsValid cb → read cb ≡ contents cb
unfolding read contents
read-contents cb v = ground (
  arith,
  copy_one cb.count (take cb.count cb.bytes),
  copy_two (cb.size - cb.write_pos) cb.count (drop cb.write_pos cb.bytes)
      (take cb.write_pos cb.bytes),
  length-take cb.count cb.bytes,
  length-take cb.write_pos cb.bytes,
  length-drop cb.write_pos cb.bytes,
)

-- ===== src/Rfb/VncAuth/Key.antt =====
-- The DES key that is made from a password.
use conduit_bmc.Base.{
  get_or-padded, ℕ, zero, suc, ◌-◌, ◌/◌, ◌%◌, ◌^◌, ◌<◌, ◌≡◌, refl, ap, ltb, ◌==◌, ==_iff,
  if◌then◌else◌, Bool, true, false, if◌then◌else◌, List, [], ◌∷◌, ◌++◌, map, length, take, get_or,
  replicate, Text, arith, length-append, length-take, length-replicate,
}
use native.Mathlib.Decide.{ℕ_discrete}
use conduit_bmc.Rfb.VncAuth.{reverse_bits, prepare_vnc_key}

-- A test of every number below a bound, by evaluation.
holds_below : (ℕ → Bool) → ℕ → Bool
holds_below test zero = true
holds_below test (suc bound) =
    let lower = holds_below test bound in if test bound then lower else false

holds_at :
    (test : ℕ → Bool) (bound : ℕ) {n : ℕ}
    → n < bound
    → holds_below test bound ≡ true
    → test n ≡ true
unfolding holds_below
holds_at test zero {n} below all = absurd (omega arith)
holds_at test (suc bound) {n} below all = elim (ℕ_discrete n bound) [
  | yes here ↦ rw here (ground arith)
  | no lower ↦ holds_at test bound (omega arith) (ground arith)
]

bits_swapped : ℕ → Bool
bits_swapped b = holds_below (λ i. reverse_bits b / 2 ^ i % 2 == b / 2 ^ (7 - i) % 2) 8

bits_swapped_table : holds_below bits_swapped 256 ≡ true
unfolding holds_below bits_swapped reverse_bits
bits_swapped_table = refl

-- For a byte and `i` below 8, bit `i` of the reversed byte is bit `7 - i` of the byte.
pub reverse_bits-bit :
    (b i : ℕ) → b < 256 → i < 8 → reverse_bits b / 2 ^ i % 2 ≡ b / 2 ^ (7 - i) % 2
unfolding bits_swapped
reverse_bits-bit b i h k =
    (==_iff _ _).0 (holds_at _ 8 k (holds_at bits_swapped 256 h bits_swapped_table))

involution_table : holds_below (λ b. reverse_bits (reverse_bits b) == b) 256 ≡ true
unfolding holds_below reverse_bits
involution_table = refl

-- Reversing twice gives back the byte.
pub reverse_bits_twice : (b : ℕ) → b < 256 → reverse_bits (reverse_bits b) ≡ b
reverse_bits_twice b h = (==_iff _ _).0 (holds_at _ 256 h involution_table)

length-map : (f : ℕ → ℕ) (xs : List ℕ) → length (map f xs) ≡ length xs
length-map f [] = refl
length-map f (x ∷ xs) = ap suc (length-map f xs)

pub length-prepare_vnc_key : (password : Text) → length (prepare_vnc_key password) ≡ 8
unfolding prepare_vnc_key
length-prepare_vnc_key password =
    let n = if ltb 8 (length password) then 8 else length password in
    rw
      (
        length-map reverse_bits (take n password ++ replicate (8 - n) 0),
        length-append (take n password) (replicate (8 - n) 0),
        length-take n password,
        length-replicate {A = ℕ} (8 - n) 0,
      )
      (ground arith)

get_or-map :
    (f : ℕ → ℕ) (i : ℕ) (xs : List ℕ) → i < length xs → get_or (map f xs) i 0 ≡ f (get_or xs i 0)
get_or-map f i [] h = absurd (omega arith)
get_or-map f zero (x ∷ xs) h = refl
get_or-map f (suc i) (x ∷ xs) h = get_or-map f i xs (omega arith)

length-padded :
    (password : Text)
    → let n = if ltb 8 (length password) then 8 else length password in
      length (take n password ++ replicate (8 - n) 0) ≡ 8
length-padded password =
    let n = if ltb 8 (length password) then 8 else length password in
    rw
      (
        length-append (take n password) (replicate (8 - n) 0),
        length-take n password,
        length-replicate {A = ℕ} (8 - n) 0,
      )
      (ground arith)

-- Each of the first eight bytes of the key is the reversed byte of the password at its place, or the
-- reversed zero behind the end of a shorter password.
pub prepare_vnc_key-byte :
    (password : Text) (i : ℕ)
    → i < 8
    → get_or (prepare_vnc_key password) i 0 ≡ reverse_bits (get_or password i 0)
unfolding prepare_vnc_key
prepare_vnc_key-byte password i h =
    let n = if ltb 8 (length password) then 8 else length password in
    rw
      (
        get_or-map reverse_bits i (take n password ++ replicate (8 - n) 0)
            (omega (arith, length-padded password)),
        get_or-padded n (8 - n) i password (ground arith),
      )
      refl

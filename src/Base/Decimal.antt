-- ===== src/Base/Decimal.antt =====
-- What `fmt.Sprintf` writes for `%d` and `%03d` at a number that is not negative.
use conduit_bmc.Base.Lists.{length, replicate}
use conduit_bmc.Base.Tests.{ltb, if◌then◌else◌}
use conduit_bmc.Base.Texts.{Text}
use Prim.Native.Nat.{ℕ, zero, suc, ◌+◌, ◌-◌, ◌/◌, ◌%◌, ◌<◌, ◌≤◌}
use mathlib.Core.Path.{◌≡◌, refl}
use mathlib.Core.List.{[], ◌∷◌, ◌++◌}
use native.Mathlib.Decide.{dec_lt}
use native.Mathlib.Omega.{arith}

-- The fuel bounds the number of digits.
digits_from : ℕ → ℕ → Text
digits_from zero n = []
digits_from (suc f) n =
    let front = digits_from f (n / 10) in
    if ltb n 10 then (b'0' + n) ∷ [] else front ++ ((b'0' + n % 10) ∷ [])

-- A number has at most as many digits as it has units, and one more for zero.
unfoldable pub decimal : ℕ → Text
unfolding digits_from
decimal n = digits_from (suc n) n

unfoldable pub pad_three : ℕ → Text
unfolding decimal
pad_three n = replicate (3 - length (decimal n)) b'0' ++ decimal n

one_digit : (f n : ℕ) → 0 < f → n < 10 → digits_from f n ≡ (b'0' + n) ∷ []
unfolding digits_from
one_digit zero n p h = absurd (omega arith)
one_digit (suc f) n p h = ground arith

two_digits :
    (f n : ℕ) → 1 < f → 10 ≤ n → n < 100 → digits_from f n ≡ (b'0' + n / 10) ∷ (b'0' + n % 10) ∷ []
unfolding digits_from
two_digits zero n p l h = absurd (omega arith)
two_digits (suc f) n p l h = ground (arith, one_digit f (n / 10))

decimal_three :
    (f n : ℕ)
    → 2 < f
    → 100 ≤ n
    → n < 1000
    → digits_from f n ≡ (b'0' + n / 100) ∷ (b'0' + n / 10 % 10) ∷ (b'0' + n % 10) ∷ []
unfolding digits_from
decimal_three zero n p l h = absurd (omega arith)
decimal_three (suc f) n p l h = ground (arith, two_digits f (n / 10))

padded :
    (n : ℕ) {ds : Text} {out : Text}
    → digits_from (suc n) n ≡ ds
    → replicate (3 - length ds) b'0' ++ ds ≡ out
    → pad_three n ≡ out
unfolding pad_three
padded n {ds} {out} e p = rw e p

-- Below a thousand `%03d` writes the three digits.
pub pad_three-digits :
    (n : ℕ)
    → n < 1000
    → pad_three n ≡ (b'0' + n / 100) ∷ (b'0' + n / 10 % 10) ∷ (b'0' + n % 10) ∷ []
pad_three-digits n h = elim (dec_lt n 10) [
  | yes a ↦ padded n (one_digit (suc n) n (omega arith) a) (ground arith)
  | no a ↦ elim (dec_lt n 100) [
    | yes b ↦ padded n (two_digits (suc n) n (omega arith) (omega arith) b) (ground arith)
    | no b ↦ padded n (decimal_three (suc n) n (omega arith) (omega arith) h) refl
  ]
]

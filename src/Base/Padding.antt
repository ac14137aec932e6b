-- ===== src/Base/Padding.antt =====
-- Lists cut at a length and padded to one.
use Prim.Native.Nat.{ℕ, zero, suc, ◌≤◌, ◌<◌}
use mathlib.Core.Path.{◌≡◌, refl, ap}
use mathlib.Core.Logic.{◌⊎◌, inl, inr}
use mathlib.Core.List.{List, [], ◌∷◌, ◌++◌}
use native.Mathlib.Omega.{arith}
use conduit_bmc.Base.Lists.{length, take, drop, replicate, get_or}

module _ {ℓ} {A : Type ℓ} where
  pub take-length : (xs ys : List A) → take (length xs) (xs ++ ys) ≡ xs
  take-length [] ys = refl
  take-length (x ∷ xs) ys = ap (λ l. x ∷ l) (take-length xs ys)

  pub drop-length : (xs ys : List A) → drop (length xs) (xs ++ ys) ≡ ys
  drop-length [] ys = refl
  drop-length (x ∷ xs) ys = drop-length xs ys

get_or-replicate : (k i : ℕ) → ◌≡◌ {A = ℕ} (get_or (replicate k 0) i 0) 0
get_or-replicate zero i = refl
get_or-replicate (suc k) zero = refl
get_or-replicate (suc k) (suc i) = get_or-replicate k i

-- A text cut or padded with zeros reads as the text itself.
pub get_or-padded :
    (n k i : ℕ) (xs : List ℕ)
    → (i < n) ⊎ (length xs ≤ n)
    → get_or (take n xs ++ replicate k 0) i 0 ≡ get_or xs i 0
get_or-padded zero k i xs (inl h) = absurd (omega arith)
get_or-padded zero k i [] (inr h) = get_or-replicate k i
get_or-padded zero k i (x ∷ xs) (inr h) = absurd (omega arith)
get_or-padded (suc n) k i [] h = get_or-replicate k i
get_or-padded (suc n) k zero (x ∷ xs) h = refl
get_or-padded (suc n) k (suc i) (x ∷ xs) (inl h) = get_or-padded n k i xs (inl (omega arith))
get_or-padded (suc n) k (suc i) (x ∷ xs) (inr h) = get_or-padded n k i xs (inr (omega arith))

pub get_or-take : (n i : ℕ) (xs : List ℕ) → i < n → get_or (take n xs) i 0 ≡ get_or xs i 0
get_or-take zero i xs h = absurd (omega arith)
get_or-take (suc n) i [] h = refl
get_or-take (suc n) zero (x ∷ xs) h = refl
get_or-take (suc n) (suc i) (x ∷ xs) h = get_or-take n i xs (omega arith)

pub append_cancel : (p s t : List ℕ) → p ++ s ≡ p ++ t → s ≡ t
append_cancel [] s t h = h
append_cancel (c ∷ p) s t h = append_cancel p s t (cc)

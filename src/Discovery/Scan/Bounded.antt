-- ===== src/Discovery/Scan/Bounded.antt =====
-- The addresses of a scan.
use conduit_bmc.Base.{
  leb, if◌then◌else◌, length, set, All, ℕ, zero, suc, ◌+◌, ◌≤◌, ◌<◌, ◌≡◌, refl, Bool, true, false,
  some, List, [], ◌∷◌, arith,
}
use conduit_bmc.Discovery.Scan.{IpNet, scan_octets, generate_ips_from_subnet}

-- An address of the network, with a last octet from 1 to 254 in place of the network's own.
abbrev pub Scannable : IpNet → List ℕ → List ℕ → Type 0
Scannable net base ip =
    (net.contains ip ≡ true) × (i : ℕ) × (1 ≤ i) × (i ≤ 254) × (ip ≡ set base 3 i)

length-scan_octets :
    (net : IpNet) (base : List ℕ) (f i n : ℕ)
    → n < 100
    → length (scan_octets net base f i n) + n ≤ 100
unfolding scan_octets
length-scan_octets net base zero i n h = omega arith
length-scan_octets net base (suc f) i n h =
    ground (
      arith,
      length-scan_octets net base f (suc i) (suc n),
      length-scan_octets net base f (suc i) n,
    )

All-cons :
    (P : List ℕ → Type 0) (b : Bool) (ip : List ℕ) (more : List (List ℕ))
    → (b ≡ true → P ip)
    → All P more
    → All P (if b then ip ∷ more else more)
All-cons P true ip more h a = (h refl, a)
All-cons P false ip more h a = a

All-cut :
    (P : List ℕ → Type 0) (b : Bool) (rest : List (List ℕ))
    → All P rest
    → All P (if b then [] else rest)
All-cut P true rest a = tt
All-cut P false rest a = a

scan_octets-All :
    (net : IpNet) (base : List ℕ) (f i n : ℕ)
    → 1 ≤ i
    → f + i ≤ 255
    → All (Scannable net base) (scan_octets net base f i n)
unfolding scan_octets
scan_octets-All net base zero i n l h = tt
scan_octets-All net base (suc f) i n l h =
    let count = if net.contains (set base 3 i) then suc n else n in
    let rest = scan_octets net base f (suc i) count in
    All-cons (Scannable net base) (net.contains (set base 3 i)) (set base 3 i)
      (if leb 100 count then [] else rest) (λ c. (c, i, l, omega arith, refl))
      (All-cut (Scannable net base) (leb 100 count) rest
        (scan_octets-All net base f (suc i) count (omega arith) (omega arith)))

-- A scan asks at most a hundred addresses, all of them in the network, and each the network's address
-- with a last octet from 1 to 254.
pub generate_ips_from_subnet_bounds :
    (net : IpNet) (base : List ℕ)
    → net.to4 ≡ some base
    → (length (generate_ips_from_subnet net) ≤ 100)
      × All (Scannable net base) (generate_ips_from_subnet net)
unfolding generate_ips_from_subnet
generate_ips_from_subnet_bounds net base h = rw h (
  omega (arith, length-scan_octets net base 254 1 0),
  scan_octets-All net base 254 1 0 (omega arith) (omega arith),
)

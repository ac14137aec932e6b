-- ===== src/Rfb/Stream/Words.antt =====
-- Reads and writes one after another: what each has taken, returned and left.
use conduit_bmc.Base.{
  get_or-take, ℕ, ◌^◌, ◌≤◌, ◌<◌, ◌≡◌, refl, ap, List, [], ◌++◌, Result, ok, err, length, take, drop,
  get_or, arith,
}
use conduit_bmc.Rfb.Stream.{
  read_u8, read_u32, Conn, M, continue, write, read_bytes, from_be, to_be, Error,
}
use conduit_bmc.Rfb.Stream.Chunks.{arriving, Reads, got_all, got_few, read_bytes-Reads}

pub from_be-to_be : (v : ℕ) → v < 2 ^ 32 → from_be (to_be v) ≡ v
unfolding from_be to_be
from_be-to_be v h = omega arith

-- A successful step of a sequence of reads and writes.
pub continue-eq-ok {ℓ κ} :
    {A : Type ℓ} {B : Type κ} (p : Result Error A × Conn) (f : A → M B) {b : B} {c' : Conn}
    → continue p f ≡ (ok b, c')
    → (a : A) × (c₁ : Conn) × (p ≡ (ok a, c₁)) × (f a c₁ ≡ (ok b, c'))
continue-eq-ok (ok a, c) f h = (a, c, refl, h)
continue-eq-ok (err e, c) f h = cc

-- What a successful read has returned and left.
pub record Took (n : ℕ) (c : Conn) (bs : List ℕ) (c' : Conn) : Type 0 where
  pub enough : n ≤ length (arriving c.incoming)
  pub value : bs ≡ take n (arriving c.incoming)
  pub rest : arriving c'.incoming ≡ drop n (arriving c.incoming)
  pub sent : c'.sent ≡ c.sent

Reads-Took :
    {n : ℕ} {c : Conn} {p : Result Error (List ℕ) × Conn} (bs : List ℕ) (c' : Conn)
    → Reads n c p
    → p ≡ (ok bs, c')
    → Took n c bs c'
Reads-Took bs c' (got_all c₁ a b d e) q = ground arith
Reads-Took bs c' (got_few x c₁ a b) q = cc

pub read_bytes-Took :
    (n : ℕ) (c : Conn) (bs : List ℕ) (c' : Conn) → read_bytes n c ≡ (ok bs, c') → Took n c bs c'
read_bytes-Took n c bs c' q = Reads-Took bs c' (read_bytes-Reads n c) q

-- A successful write has sent all of its bytes.
pub write-sent :
    (bs : List ℕ) (c c' : Conn) {u : Unit {0}}
    → write bs c ≡ (ok u, c')
    → (c'.sent ≡ c.sent ++ bs) × (c'.incoming ≡ c.incoming)
unfolding write
write-sent bs c c' q = ground arith

-- Without faults a write sends all of its bytes.
pub write-healthy :
    (bs : List ℕ) (c : Conn)
    → c.faults ≡ []
    → write bs c ≡ (ok tt, record c { sent = c.sent ++ bs })
unfolding write
write-healthy bs c h = ground arith

-- With enough bytes a read succeeds.
pub read_bytes-enough :
    (n : ℕ) (c : Conn)
    → n ≤ length (arriving c.incoming)
    → (c' : Conn) × (read_bytes n c ≡ (ok (take n (arriving c.incoming)), c'))
      × (arriving c'.incoming ≡ drop n (arriving c.incoming))
      × (c'.sent ≡ c.sent)
      × (c'.faults ≡ c.faults)
read_bytes-enough n c h = found (read_bytes n c) (read_bytes-Reads n c)
  where
    found :
        (p : Result Error (List ℕ) × Conn)
        → Reads n c p
        → (c' : Conn) × (p ≡ (ok (take n (arriving c.incoming)), c'))
          × (arriving c'.incoming ≡ drop n (arriving c.incoming))
          × (c'.sent ≡ c.sent)
          × (c'.faults ≡ c.faults)
    found p (got_all c' a b d e) = (c', refl, b, d, e)
    found p (got_few x c' a b) = absurd (omega arith)

pub read_u8-next :
    (c : Conn) (b : ℕ) (c' : Conn)
    → read_u8 c ≡ (ok b, c')
    → (b ≡ get_or (arriving c.incoming) 0 0)
      × (arriving c'.incoming ≡ drop 1 (arriving c.incoming))
      × (c'.sent ≡ c.sent)
unfolding read_u8
read_u8-next c b c' h =
    let (bs, c₁, r, e) = continue-eq-ok (read_bytes 1 c) _ h in
    ground (arith, read_bytes-Took 1 c bs c₁ r, e, get_or-take 1 0 (arriving c.incoming))

from_be-take : (n : ℕ) (xs : List ℕ) → 4 ≤ n → from_be (take n xs) ≡ from_be xs
unfolding from_be
from_be-take n xs h = rw (
  get_or-take n 0 xs (omega arith),
  get_or-take n 1 xs (omega arith),
  get_or-take n 2 xs (omega arith),
  get_or-take n 3 xs (omega arith),
)

-- `ReadU32` returns the next four bytes as a number, the highest byte first.
pub read_u32-next :
    (c : Conn) (u : ℕ) (c' : Conn)
    → read_u32 c ≡ (ok u, c')
    → (u ≡ from_be (arriving c.incoming))
      × (arriving c'.incoming ≡ drop 4 (arriving c.incoming))
      × (c'.sent ≡ c.sent)
unfolding read_u32
read_u32-next c u c' h =
    let (bs, c₁, r, e) = continue-eq-ok (read_bytes 4 c) _ h in
    ground (arith, read_bytes-Took 4 c bs c₁ r, e, from_be-take 4 (arriving c.incoming))

-- With four bytes at hand `ReadU32` succeeds.
pub read_u32-enough :
    (c : Conn)
    → 4 ≤ length (arriving c.incoming)
    → (c' : Conn) × (read_u32 c ≡ (ok (from_be (arriving c.incoming)), c'))
      × (arriving c'.incoming ≡ drop 4 (arriving c.incoming))
      × (c'.sent ≡ c.sent)
      × (c'.faults ≡ c.faults)
unfolding read_u32
read_u32-enough c h =
    let (c', e, a, s, f) = read_bytes-enough 4 c h in
    (c', rw (e, from_be-take 4 (arriving c.incoming) (omega arith)) refl, a, s, f)

from_be-append : (u : ℕ) (rest : List ℕ) → u < 2 ^ 32 → from_be (to_be u ++ rest) ≡ u
unfolding from_be to_be
from_be-append u rest h = omega arith

-- A word that is at hand in wire format is read back.
pub read_u32-to_be :
    (u : ℕ) (rest : List ℕ) (c : Conn)
    → u < 2 ^ 32
    → arriving c.incoming ≡ to_be u ++ rest
    → (c' : Conn) × (read_u32 c ≡ (ok u, c'))
      × (arriving c'.incoming ≡ rest)
      × (c'.sent ≡ c.sent)
      × (c'.faults ≡ c.faults)
unfolding to_be
read_u32-to_be u rest c h a =
    let (c', e, d, s, f) = read_u32-enough c (rw a (omega arith)) in
    (c', rw e (rw (a, from_be-append u rest h) refl), rw d (ap (drop 4) a), s, f)

-- ===== src/Auth/Token/Key.antt =====
-- The AES key that both sides make of the shared secret.
use conduit_bmc.Base.{
  get_or-padded, get_or-take, length, replicate, get_or, length-append, length-take,
  length-replicate, take-all, Text, ℕ, ◌-◌, ◌<◌, ◌≡◌, inr, arith,
}
use conduit_bmc.Auth.Token.{encryption_key}

-- Every secret, short or long, makes a key of 32 bytes.
pub length-encryption_key : (key : Text) → length (encryption_key key) ≡ 32
unfolding encryption_key
length-encryption_key key = ground (
  arith,
  length-take 32 key,
  length-append key (replicate (32 - length key) 0),
  length-replicate {A = ℕ} (32 - length key) 0,
)

-- The key's bytes are the first 32 of the secret, and zeros behind the end of a shorter one.
pub encryption_key-byte :
    (key : Text) (i : ℕ) → i < 32 → get_or (encryption_key key) i 0 ≡ get_or key i 0
unfolding encryption_key
encryption_key-byte key i h = ground (
  arith,
  get_or-take 32 i key h,
  get_or-padded (length key) (32 - length key) i key (inr (omega arith)),
  take-all (length key) key (omega arith),
)

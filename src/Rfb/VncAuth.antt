-- ===== src/Rfb/VncAuth.antt =====
-- VNC authentication: local-agent/pkg/vnc/rfb/auth.go. The DES block cipher is Go's crypto/des.
pub mod Key
pub mod Challenge
use conduit_bmc.Base.{
  ℕ, zero, suc, ◌+◌, ◌-◌, ◌*◌, ◌/◌, ◌%◌, ◌≡◌, ltb, ◌==◌, if◌then◌else◌, List, [], ◌∷◌, ◌++◌, map,
  Result, ok, err, require, ◌>>=◌, ◌>>◌, length, take, drop, replicate, Text,
}
use Prim.Native.Nat.{bit_and, bit_or}
use conduit_bmc.Rfb.Stream.{Error, challenge_length, bad_key}

-- What is relied on of crypto/des: on a key and a block of eight bytes `Decrypt` undoes `Encrypt`,
-- and both return a block.
pub record Des : Type 0 where
  pub encrypt : List ℕ → List ℕ → List ℕ
  pub decrypt : List ℕ → List ℕ → List ℕ
  pub length-encrypt :
      (key block : List ℕ) → length key ≡ 8 → length block ≡ 8 → length (encrypt key block) ≡ 8
  pub decrypt-encrypt :
      (key block : List ℕ)
      → length key ≡ 8
      → length block ≡ 8
      → decrypt key (encrypt key block) ≡ block

-- The loop of `reverseBits`: the rounds left, `b` and `result`, which are bytes.
reverse_loop : ℕ → ℕ → ℕ → ℕ
reverse_loop zero b result = result
reverse_loop (suc k) b result = reverse_loop k (b / 2) (bit_or (result * 2 % 256) (bit_and b 1))

unfoldable pub reverse_bits : ℕ → ℕ
unfolding reverse_loop
reverse_bits b = reverse_loop 8 b 0

-- `n` is `len(password)`, at most 8; the rest of the eight bytes are zero.
unfoldable pub prepare_vnc_key : Text → List ℕ
prepare_vnc_key password =
    let n = if ltb 8 (length password) then 8 else length password in
    map reverse_bits (take n password ++ replicate (8 - n) 0)

module _ (des : Des) where
  open des use {encrypt, decrypt}

  -- `des.NewCipher` fails on a key that is not eight bytes long.
  unfoldable pub encrypt_vnc_challenge : List ℕ → Text → Result Error (List ℕ)
  encrypt_vnc_challenge challenge password = do
    require (length challenge == 16) (challenge_length (length challenge))
    let key = prepare_vnc_key password
    require (length key == 8) (bad_key (length key))
    ok (encrypt key (take 8 challenge) ++ encrypt key (take 8 (drop 8 challenge)))

  unfoldable pub decrypt_vnc_response : List ℕ → Text → Result Error (List ℕ)
  decrypt_vnc_response response password = do
    require (length response == 16) (challenge_length (length response))
    let key = prepare_vnc_key password
    require (length key == 8) (bad_key (length key))
    ok (decrypt key (take 8 response) ++ decrypt key (take 8 (drop 8 response)))

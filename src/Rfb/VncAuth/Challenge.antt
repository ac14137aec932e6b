-- ===== src/Rfb/VncAuth/Challenge.antt =====
-- The answer to a challenge.
use conduit_bmc.Base.{
  ℕ, ◌-◌, ◌≡◌, ◌∙◌, List, ◌++◌, ok, length, take, drop, Text, arith, length-append, length-take,
  length-drop, take-append_le, drop-append_ge, take-all, take-append-drop,
}
use conduit_bmc.Rfb.VncAuth.{Des, prepare_vnc_key, encrypt_vnc_challenge, decrypt_vnc_response}
use conduit_bmc.Rfb.VncAuth.Key.{length-prepare_vnc_key}

take-front : (n : ℕ) (a b : List ℕ) → n ≡ length a → take n (a ++ b) ≡ a
take-front n a b e = take-append_le n a b (omega arith) ∙ take-all n a (omega arith)

take-back : (n k : ℕ) (a b : List ℕ) → n ≡ length a → k ≡ length b → take k (drop n (a ++ b)) ≡ b
take-back n k a b e f =
    let z : n - length a ≡ 0 = omega arith in
    rw (drop-append_ge n a b (omega arith), z) (take-all k b (omega arith))

module _ (des : Des) where
  open des use {encrypt, decrypt, length-encrypt, decrypt-encrypt}

  -- Every challenge of sixteen bytes is answered by sixteen bytes, and decrypting the answer under the
  -- same password gives back the challenge.
  pub decrypt-encrypt_challenge :
      (challenge : List ℕ) (password : Text)
      → length challenge ≡ 16
      → (response : List ℕ) × (encrypt_vnc_challenge des challenge password ≡ ok response)
        × (length response ≡ 16)
        × (decrypt_vnc_response des response password ≡ ok challenge)
  unfolding encrypt_vnc_challenge decrypt_vnc_response
  decrypt-encrypt_challenge challenge password h =
      let key = prepare_vnc_key password in
      let a = take 8 challenge in
      let b = take 8 (drop 8 challenge) in
      let k = length-prepare_vnc_key password in
      let la : length a ≡ 8 = omega (arith, length-take 8 challenge) in
      let lb : length b ≡ 8 =
        omega (arith, length-take 8 (drop 8 challenge), length-drop 8 challenge) in
      let ea = length-encrypt key a k la in
      let eb = length-encrypt key b k lb in
      let whole : a ++ b ≡ challenge =
        rw (take-all 8 (drop 8 challenge) (omega (arith, length-drop 8 challenge)))
          (take-append-drop 8 challenge) in
      let lr : length (encrypt key a ++ encrypt key b) ≡ 16 =
        omega (arith, length-append (encrypt key a) (encrypt key b)) in
      (
        encrypt key a ++ encrypt key b,
        ground (arith, k),
        lr,
        ground (
          arith,
          k,
          lr,
          take-front 8 (encrypt key a) (encrypt key b),
          take-back 8 8 (encrypt key a) (encrypt key b),
          decrypt-encrypt key a k la,
          decrypt-encrypt key b k lb,
          whole,
        ),
      )

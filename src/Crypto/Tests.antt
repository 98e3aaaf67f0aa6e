-- ===== src/Crypto/Tests.antt =====
-- The frames of user/crypto/crypto.c with primitives that keep the laws and are no ciphers.
use meter_logger.Prelude.{
  ◌⊎◌, length, ℕ, ◌≤◌, ◌<◌, ◌+◌, ◌≡◌, refl, List, [], ◌∷◌, ◌++◌, replicate, take, arith,
}
use meter_logger.Prelude.Text.{text_eq}
use meter_logger.Crypto.{
  Primitives, Keys, is_padded, unpadded_length, encrypt_aes_hmac_combined,
  decrypt_aes_hmac_combined,
}
use meter_logger.Crypto.Laws.{IsSound}
use meter_logger.Crypto.RoundTrip.{decrypt-encrypt, decrypt-authentic}

-- The cipher that leaves all as it is, and a tag of zeros.
abbrev pub plain : Primitives
plain = record {
  cbc_encrypt = λ key iv m. m;
  cbc_decrypt = λ key iv m. m;
  before_dst = λ i. 0;
  hmac = λ key m. replicate 32 0;
}

abbrev pub plain-IsSound : IsSound plain
plain-IsSound = record {
  length-encrypt = λ key iv m h. refl;
  decrypt-encrypt = λ key iv m a h. refl;
  length-hmac = λ key m. refl;
}

abbrev pub keys : Keys
keys = record { aes_key = replicate 16 1; hmac_sha256_key = replicate 16 2 }

decrypt-encrypt_example :
    let r =
      encrypt_aes_hmac_combined plain keys
        (replicate 16 9)
        (replicate 80 0)
        (5 ∷ [])
        (1 ∷ 2 ∷ []) in
    let r' = decrypt_aes_hmac_combined plain keys (replicate 20 0) (5 ∷ []) (take r.0 r.1) in
    (r.0 ≤ 66) × (r'.0 ≡ 2) × (take r'.0 r'.1 ≡ 1 ∷ 2 ∷ [])
decrypt-encrypt_example =
    decrypt-encrypt plain keys (replicate 16 9) (replicate 80 0) (replicate 20 0) (5 ∷ [])
      (1 ∷ 2 ∷ []) plain-IsSound refl (omega arith) (omega arith)

-- A frame of one block with three bytes of padding.
abbrev frame : List ℕ
frame = replicate 61 0 ++ 3 ∷ 3 ∷ 3 ∷ []

accepted : (decrypt_aes_hmac_combined plain keys (replicate 20 0) (5 ∷ []) frame).0 ≡ 13
unfolding decrypt_aes_hmac_combined unpadded_length is_padded text_eq
accepted = refl

decrypt-authentic_example :
    (take 32 frame ≡ replicate 32 0)
    × (((decrypt_aes_hmac_combined plain keys (replicate 20 0) (5 ∷ []) frame).0 + 48
          < length frame)
        ⊎ (length frame < 64))
decrypt-authentic_example =
    decrypt-authentic plain keys (replicate 20 0) (5 ∷ []) frame (omega (arith, accepted))

-- ===== src/Crypto/Laws.antt =====
-- What user/crypto/crypto.c relies on in AES-CBC and HMAC-SHA256.
use meter_logger.Prelude.{ℕ, ◌%◌, ◌≡◌, List, length}
use meter_logger.Crypto.{Primitives}

-- On whole blocks, AES-CBC keeps the length and decrypts what it encrypted; the HMAC has 32 bytes.
pub record IsSound (p : Primitives) : Type 0 where
  pub length-encrypt :
      (key iv m : List ℕ) → length m % 16 ≡ 0 → length (p.cbc_encrypt key iv m) ≡ length m
  pub decrypt-encrypt :
      (key iv m : List ℕ)
      → length iv ≡ 16
      → length m % 16 ≡ 0
      → p.cbc_decrypt key iv (p.cbc_encrypt key iv m) ≡ m
  pub length-hmac : (key m : List ℕ) → length (p.hmac key m) ≡ 32

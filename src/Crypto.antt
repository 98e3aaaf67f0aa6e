-- ===== src/Crypto.antt =====
-- user/crypto/crypto.c: the frames of the MQTT messages, HMAC ++ IV ++ ciphertext. AES-CBC and HMAC-SHA256
-- are libraries and parameters here. The module Laws states what is relied on, RoundTrip and Tests prove.
use meter_logger.Prelude.{
  ℕ, zero, suc, ◌+◌, ◌-◌, ◌%◌, ◌^◌, Bool, true, false, ◌&&◌, ◌||◌, not, if◌then◌else◌, ltb, ◌==◌,
  List, ◌++◌, length, take, drop, get_or, set, copy_to,
}
use meter_logger.Prelude.Text.{text_eq}
pub mod Laws
pub mod Seal
pub mod Frame
pub mod RoundTrip
pub mod Tests

-- `AES128_CBC_encrypt_buffer` and `AES128_CBC_decrypt_buffer` on a key, an IV and a buffer, and
-- `hmac_sha256_init`, `_update`, `_final` on a key and the bytes of all updates; and the bytes that stand before the
-- buffer `dst` in memory, the nearest first.
pub record Primitives : Type 0 where
  pub cbc_encrypt : List ℕ → List ℕ → List ℕ → List ℕ
  pub cbc_decrypt : List ℕ → List ℕ → List ℕ → List ℕ
  pub hmac : List ℕ → List ℕ → List ℕ
  pub before_dst : ℕ → ℕ

-- The keys of `init_aes_hmac_combined`.
pub record Keys : Type 0 where
  pub aes_key : List ℕ
  pub hmac_sha256_key : List ℕ

-- `SHA256_DIGEST_LENGTH`
abbrev pub digest_length : ℕ
digest_length = 32

-- The keys are the halves of the hash of the first 16 bytes of the master key.
unfoldable pub init_aes_hmac_combined : (List ℕ → List ℕ) → List ℕ → Keys
init_aes_hmac_combined sha256_raw key =
    let sha256_hash = sha256_raw (take 16 key) in
    record { aes_key = take 16 sha256_hash; hmac_sha256_key = take 16 (drop 16 sha256_hash) }

-- `for (i = 0; i < pad; i++) dst[at + i] = pad`, with `fuel` passes left.
unfoldable pub put_padding : ℕ → ℕ → ℕ → List ℕ → List ℕ
put_padding zero at pad dst = dst
put_padding (suc fuel) at pad dst = put_padding fuel (suc at) pad (set dst at pad)

-- The length and the buffer that `encrypt_aes_hmac_combined` leaves, where `iv` is what the random
-- generator gives.
unfoldable pub encrypt_aes_hmac_combined :
    Primitives → Keys → List ℕ → List ℕ → List ℕ → List ℕ → ℕ × List ℕ
encrypt_aes_hmac_combined p k iv dst topic message =
    let message_l = length message in
    let pad = 16 - message_l % 16 in
    let padded_len = message_l + pad in
    let at = digest_length + 16 in
    let dst = copy_to dst digest_length iv in
    let dst = put_padding pad (at + message_l) pad (copy_to dst at message) in
    let cipher =
      p.cbc_encrypt k.aes_key (take 16 (drop digest_length dst)) (take padded_len (drop at dst)) in
    let dst = copy_to dst at cipher in
    let total_len = at + padded_len in
    let tag =
      p.hmac k.hmac_sha256_key
        (topic ++ take (total_len - digest_length) (drop digest_length dst)) in
    (total_len, copy_to dst 0 tag)

-- The byte `dst[encrypted_len - 1 - i]`, which may stand before `dst`.
abbrev pub byte_from_end : Primitives → ℕ → ℕ → List ℕ → ℕ
byte_from_end p encrypted_len i dst =
    if ltb i encrypted_len
    then get_or dst (encrypted_len - 1 - i) 0
    else p.before_dst (i - encrypted_len)

-- The loop over the padding: whether `dst[encrypted_len - 1 - i] == pad` for all i below the fuel.
unfoldable pub is_padded : Primitives → ℕ → ℕ → ℕ → List ℕ → Bool
is_padded p zero encrypted_len pad dst = true
is_padded p (suc i) encrypted_len pad dst =
    is_padded p i encrypted_len pad dst && byte_from_end p encrypted_len i dst == pad

-- The removal of the padding from the decrypted buffer; a length below 0 wraps.
unfoldable pub unpadded_length : Primitives → ℕ → List ℕ → ℕ
unpadded_length p encrypted_len dst =
    let pad = get_or dst (encrypted_len - 1) 0 in
    let wrapped =
      if ltb encrypted_len pad then 2 ^ 32 + encrypted_len - pad else encrypted_len - pad in
    if encrypted_len == 0
    then 0
    else if pad == 0 || ltb 16 pad
    then 0
    else if is_padded p pad encrypted_len pad dst
    then wrapped
    else 0

-- The length and the buffer that `decrypt_aes_hmac_combined` leaves for a message of its whole length.
unfoldable pub decrypt_aes_hmac_combined : Primitives → Keys → List ℕ → List ℕ → List ℕ → ℕ × List ℕ
decrypt_aes_hmac_combined p k dst topic message =
    let tag = p.hmac k.hmac_sha256_key (topic ++ drop digest_length message) in
    let encrypted_len = length message - (digest_length + 16) in
    let at = digest_length + 16 in
    let plain = p.cbc_decrypt k.aes_key (take 16 (drop digest_length message)) (drop at message) in
    if ltb (length message) (digest_length + 16)
    then (0, dst)
    else if text_eq tag (take digest_length message)
    then (unpadded_length p encrypted_len (copy_to dst 0 plain), copy_to dst 0 plain)
    else (0, dst)

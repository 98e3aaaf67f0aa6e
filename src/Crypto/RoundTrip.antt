-- ===== src/Crypto/RoundTrip.antt =====
-- `decrypt_aes_hmac_combined` of user/crypto/crypto.c on the frames that `encrypt_aes_hmac_combined` writes,
-- and on any others.
use meter_logger.Prelude.{
  drop-append, ℕ, zero, suc, ◌+◌, ◌-◌, ◌%◌, ◌≤◌, ◌<◌, ◌≡◌, ◌⊎◌, refl, sym, ap, ◌∙◌, append_assoc,
  true, List, ◌++◌, length, length-append, replicate, take, take-take, take-append, ge→ltb,
  take-copy_to, drop, copy_to, get_or, get_or-take, get_or-append_right, arith,
}
use meter_logger.Prelude.Text.{text_eq, text_eq_iff}
use meter_logger.Crypto.{
  Primitives, Keys, is_padded, unpadded_length, encrypt_aes_hmac_combined,
  decrypt_aes_hmac_combined,
}
use meter_logger.Crypto.Laws.{IsSound}
use meter_logger.Crypto.Seal.{sealed, padded, length-padded}
use meter_logger.Crypto.Frame.{encrypt_aes_hmac_combined_lem}

get_or-replicate : (n i a : ℕ) → i < n → get_or (replicate n a) i 0 ≡ a
get_or-replicate zero i a h = absurd (omega arith)
get_or-replicate (suc n) zero a h = refl
get_or-replicate (suc n) (suc i) a h = get_or-replicate n i a (omega arith)

-- The loop finds the padding.
is_padded_lem :
    (p : Primitives) (fuel len pad : ℕ) (b : List ℕ)
    → fuel ≤ pad
    → pad ≤ len
    → ((j : ℕ) → len - pad ≤ j → j < len → get_or b j 0 ≡ pad)
    → is_padded p fuel len pad b ≡ true
unfolding is_padded
is_padded_lem p zero len pad b h k f = refl
is_padded_lem p (suc i) len pad b h k f =
    let last = f (len - 1 - i) (omega arith) (omega arith) in
    ground (arith, is_padded_lem p i len pad b (omega arith) k f, last)

-- A buffer that begins with a padded message.
unpadded_length-padded :
    (p : Primitives) (b m : List ℕ)
    → take (length (padded m)) b ≡ padded m
    → unpadded_length p (length (padded m)) b ≡ length m
unfolding unpadded_length
unpadded_length-padded p b m h =
    let pad = 16 - length m % 16 in
    let len = length (padded m) in
    let l = length-padded m in
    let at = λ (j : ℕ) (k : len - pad ≤ j) (q : j < len).
      sym (get_or-take b len j 0 q)
      ∙ ap (λ x. get_or x j 0) h
      ∙ get_or-append_right m (replicate pad pad) j (j - length m) 0 (omega arith)
      ∙ get_or-replicate pad (j - length m) pad (omega arith) in
    let all = is_padded_lem p pad len pad b (omega arith) (omega arith) at in
    let last = at (len - 1) (omega arith) (omega arith) in rw last (ground (arith, all))

-- The parts of a frame.
frame_parts :
    (tag iv cipher : List ℕ)
    → length tag ≡ 32
    → length iv ≡ 16
    → let f = tag ++ (iv ++ cipher) in
      (take 32 f ≡ tag)
      × (drop 32 f ≡ iv ++ cipher)
      × (take 16 (drop 32 f) ≡ iv)
      × (drop 48 f ≡ cipher)
      × (length f ≡ 48 + length cipher)
frame_parts tag iv cipher a b =
    let d = drop-append tag (iv ++ cipher) 32 a in
    (
      take-append tag (iv ++ cipher) 32 a,
      d,
      ap (take 16) d ∙ take-append iv cipher 16 b,
      ap (drop 48) (sym (append_assoc tag iv cipher))
          ∙ drop-append (tag ++ iv) cipher 48 (omega (arith, length-append tag iv)),
      omega (arith, length-append tag (iv ++ cipher), length-append iv cipher),
    )

-- A message of `48 + n` bytes with the right tag.
decrypt_tagged :
    (p : Primitives) (k : Keys) (dst topic f x : List ℕ) (n : ℕ)
    → length f ≡ 48 + n
    → text_eq (p.hmac k.hmac_sha256_key (topic ++ drop 32 f)) (take 32 f) ≡ true
    → p.cbc_decrypt k.aes_key (take 16 (drop 32 f)) (drop 48 f) ≡ x
    → decrypt_aes_hmac_combined p k dst topic f
      ≡ (unpadded_length p n (copy_to dst 0 x), copy_to dst 0 x)
unfolding decrypt_aes_hmac_combined
decrypt_tagged p k dst topic f x n l t d =
    let short = ge→ltb (length f) 48 (omega arith) in
    let rest : length f - 48 ≡ n = omega arith in rw (short, t, d, rest) refl

-- The frame of a padded message decrypts to the message.
decrypt-sealed :
    (p : Primitives) (k : Keys) (iv dst topic m : List ℕ)
    → IsSound p
    → length iv ≡ 16
    → length (padded m) ≤ length dst
    → let r = decrypt_aes_hmac_combined p k dst topic (sealed p k iv topic (padded m)) in
      (r.0 ≡ length m) × (take r.0 r.1 ≡ m)
unfolding decrypt_aes_hmac_combined
decrypt-sealed p k iv dst topic m sound a c =
    let x = padded m in
    let cipher = p.cbc_encrypt k.aes_key iv x in
    let tag = p.hmac k.hmac_sha256_key (topic ++ (iv ++ cipher)) in
    let q =
      frame_parts tag iv cipher (sound.length-hmac k.hmac_sha256_key (topic ++ (iv ++ cipher))) a in
    let blocks : length x % 16 ≡ 0 = omega (arith, length-padded m) in
    let lc = sound.length-encrypt k.aes_key iv x blocks in
    let plain = sound.decrypt-encrypt k.aes_key iv x a blocks in
    let b = copy_to dst 0 x in
    let same = (text_eq_iff tag tag).1 refl in
    let front : take (length x) b ≡ x = take-copy_to dst 0 (length x) x (omega arith) c in
    let len = unpadded_length-padded p b m front in
    let r =
      decrypt_tagged p k dst topic (sealed p k iv topic x) x (length x) (omega (arith, q.4, lc))
        (rw (q.1, q.0) same) (rw (q.2, q.3) plain) in
    rw (r, len)
      (
        refl,
        sym (take-take b (length m) (length x) (omega (arith, length-padded m)))
            ∙ ap (take (length m)) front
            ∙ take-append m (replicate (16 - length m % 16) (16 - length m % 16)) (length m) refl,
      )

-- What one device encrypts into a buffer that is large enough, another with the same keys decrypts under
-- the same topic to the message, for every message, IV and content of the buffers.
pub decrypt-encrypt :
    (p : Primitives) (k : Keys) (iv dst dst' topic m : List ℕ)
    → IsSound p
    → length iv ≡ 16
    → 64 + length m ≤ length dst
    → 16 + length m ≤ length dst'
    → let r = encrypt_aes_hmac_combined p k iv dst topic m in
      let r' = decrypt_aes_hmac_combined p k dst' topic (take r.0 r.1) in
      (r.0 ≤ 64 + length m) × (r'.0 ≡ length m) × (take r'.0 r'.1 ≡ m)
decrypt-encrypt p k iv dst dst' topic m sound a b c =
    let l = length-padded m in
    let e = encrypt_aes_hmac_combined_lem p k iv dst topic m sound a (omega arith) in
    let d = decrypt-sealed p k iv dst' topic m sound a (omega arith) in
    (omega (arith, e.0), rw e.1 d.0, rw e.1 d.1)

unpadded_length-lt :
    (p : Primitives) (n : ℕ) (b : List ℕ)
    → 1 ≤ unpadded_length p n b
    → (unpadded_length p n b < n) ⊎ (n < 16)
unfolding unpadded_length
unpadded_length-lt p n b h = ground arith

-- A message that is accepted, so that a length above 0 is answered, carries the tag of its topic and
-- content, and is shorter than its ciphertext, unless the ciphertext has less than one block of 16 bytes.
pub decrypt-authentic :
    (p : Primitives) (k : Keys) (dst topic f : List ℕ)
    → 1 ≤ (decrypt_aes_hmac_combined p k dst topic f).0
    → let r = decrypt_aes_hmac_combined p k dst topic f in
      (take 32 f ≡ p.hmac k.hmac_sha256_key (topic ++ drop 32 f))
      × ((r.0 + 48 < length f) ⊎ (length f < 64))
unfolding decrypt_aes_hmac_combined
decrypt-authentic p k dst topic f h =
    let tag = p.hmac k.hmac_sha256_key (topic ++ drop 32 f) in
    let plain = p.cbc_decrypt k.aes_key (take 16 (drop 32 f)) (drop 48 f) in
    ground (
      arith,
      text_eq_iff tag (take 32 f),
      unpadded_length-lt p (length f - 48) (copy_to dst 0 plain),
    )

-- ===== src/Crypto/Frame.antt =====
-- `encrypt_aes_hmac_combined` of user/crypto/crypto.c writes the frame.
use meter_logger.Prelude.{
  drop-append, ℕ, ◌+◌, ◌-◌, ◌%◌, ◌≤◌, ◌≡◌, ap, ap₂, ◌∙◌, subst, append_assoc, List, ◌++◌, length,
  length-copy_to, length-take, take, take-copy_to, drop, copy_to, arith,
}
use meter_logger.Crypto.{Primitives, Keys, put_padding, encrypt_aes_hmac_combined}
use meter_logger.Crypto.Laws.{IsSound}
use meter_logger.Crypto.Seal.{sealed, padded, length-padded, prepared, parts, take-overwrite_all}

-- The tag in front of a frame.
tagged :
    (d h iv x tag : List ℕ) (total : ℕ)
    → length h ≡ 32
    → length iv ≡ 16
    → length tag ≡ 32
    → 48 + length x ≡ total
    → total ≤ length d
    → take total d ≡ (h ++ iv) ++ x
    → take total (copy_to d 0 tag) ≡ tag ++ (iv ++ x)
tagged d h iv x tag total a b e c l t =
    take-overwrite_all d tag total (omega arith) l
    ∙ ap (λ r. tag ++ r) (ap₂ drop e (t ∙ append_assoc h iv x) ∙ drop-append h (iv ++ x) 32 a)

-- With a buffer that is large enough, the code writes the whole frame of the padded message, and answers
-- its length.
pub encrypt_aes_hmac_combined_lem :
    (p : Primitives) (k : Keys) (iv dst topic message : List ℕ)
    → IsSound p
    → length iv ≡ 16
    → 48 + length (padded message) ≤ length dst
    → let r = encrypt_aes_hmac_combined p k iv dst topic message in
      (r.0 ≡ 48 + length (padded message)) × (take r.0 r.1 ≡ sealed p k iv topic (padded message))
unfolding encrypt_aes_hmac_combined
encrypt_aes_hmac_combined_lem p k iv dst topic message sound a c =
    let pad = 16 - length message % 16 in
    let x = padded message in
    let total = 48 + (length message + pad) in
    let lx = length-padded message in
    let h = take 32 dst in
    let lh : length h ≡ 32 = omega (arith, length-take 32 dst) in
    let d = put_padding pad (48 + length message) pad (copy_to (copy_to dst 32 iv) 48 message) in
    let ready = prepared dst iv message pad total a (omega arith) (omega arith) in
    let q = parts d h iv x total lh a (omega arith) ready.0 in
    let body : take (length message + pad) (drop 48 d) ≡ x =
      subst (λ n. take n (drop 48 d) ≡ x) lx q.2 in
    let cipher = p.cbc_encrypt k.aes_key iv x in
    let same : p.cbc_encrypt k.aes_key (take 16 (drop 32 d))
          (take (length message + pad) (drop 48 d))
        ≡ cipher =
      ap₂ (p.cbc_encrypt k.aes_key) q.0 body in
    let lc : length cipher ≡ length x = sound.length-encrypt k.aes_key iv x (omega arith) in
    let e = copy_to d 48 cipher in
    let le = length-copy_to d 48 cipher in
    let t : take total e ≡ (h ++ iv) ++ cipher =
      take-copy_to d 48 total cipher (omega arith) (omega (arith, ready.1))
      ∙ ap (λ y. y ++ cipher) q.1 in
    let r = parts e h iv cipher total lh a (omega arith) t in
    let tag = p.hmac k.hmac_sha256_key (topic ++ (iv ++ cipher)) in
    (
      omega arith,
      rw (same, r.3)
          (tagged e h iv cipher tag total lh a
            (sound.length-hmac k.hmac_sha256_key (topic ++ (iv ++ cipher))) (omega arith)
            (omega (arith, ready.1)) t),
    )

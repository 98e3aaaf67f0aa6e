-- ===== src/Crypto/Seal.antt =====
-- The frame that `encrypt_aes_hmac_combined` of user/crypto/crypto.c writes.
use meter_logger.Prelude.{
  drop-append, ℕ, zero, suc, ◌+◌, ◌-◌, ◌%◌, ◌≤◌, ◌≡◌, refl, sym, ap, ◌∙◌, subst, append_assoc,
  append-nil, List, [], ◌∷◌, ◌++◌, length, length-append, length-copy_to, length-set,
  length-replicate, replicate, take, take-take, take-copy_to, take-set, take-append, drop, set,
  copy_to, overwrite, arith,
}
use meter_logger.Crypto.{Primitives, Keys, put_padding}

pub take-drop : (xs : List ℕ) (a b j : ℕ) → a + b ≡ j → take b (drop a xs) ≡ drop a (take j xs)
take-drop xs zero b j h = ap (λ n. take n xs) (omega arith)
take-drop xs (suc a) b zero h = absurd (omega arith)
take-drop [] (suc a) zero (suc j) h = refl
take-drop [] (suc a) (suc b) (suc j) h = refl
take-drop (x ∷ xs) (suc a) b (suc j) h = take-drop xs a b j (omega arith)

pub take-overwrite_all :
    (xs ys : List ℕ) (n : ℕ)
    → length ys ≤ n
    → n ≤ length xs
    → take n (overwrite xs ys) ≡ ys ++ drop (length ys) (take n xs)
take-overwrite_all [] [] zero h k = refl
take-overwrite_all [] ys (suc n) h k = absurd (omega arith)
take-overwrite_all [] (y ∷ ys) zero h k = absurd (omega arith)
take-overwrite_all (x ∷ xs) [] n h k = refl
take-overwrite_all (x ∷ xs) (y ∷ ys) zero h k = absurd (omega arith)
take-overwrite_all (x ∷ xs) (y ∷ ys) (suc n) h k =
    ap (λ t. y ∷ t) (take-overwrite_all xs ys n (omega arith) (omega arith))

-- The loop writes the padding behind what stands before it.
take-put_padding :
    (fuel at pad : ℕ) (dst : List ℕ)
    → at + fuel ≤ length dst
    → (take (at + fuel) (put_padding fuel at pad dst) ≡ take at dst ++ replicate fuel pad)
      × (length (put_padding fuel at pad dst) ≡ length dst)
unfolding put_padding
take-put_padding zero at pad dst h =
    let e : at + zero ≡ at = omega arith in rw e (sym (append-nil (take at dst)), refl)
take-put_padding (suc fuel) at pad dst h =
    let l = length-set dst at pad in
    let t = take-put_padding fuel (suc at) pad (set dst at pad) (omega arith) in
    let e : at + suc fuel ≡ suc at + fuel = omega arith in
    rw e (
      t.0
          ∙ ap (λ x. x ++ replicate fuel pad)
              (take-set dst at (suc at) pad (omega arith) (omega arith))
          ∙ append_assoc (take at dst) (pad ∷ []) (replicate fuel pad),
      t.1 ∙ l,
    )

-- The frame: the tag over the topic, the IV and the ciphertext, then the IV, then the ciphertext.
abbrev pub sealed : Primitives → Keys → List ℕ → List ℕ → List ℕ → List ℕ
sealed p k iv topic padded =
    let cipher = p.cbc_encrypt k.aes_key iv padded in
    p.hmac k.hmac_sha256_key (topic ++ (iv ++ cipher)) ++ (iv ++ cipher)

-- The message and its padding to whole blocks, by 1 to 16 bytes that tell their number.
abbrev pub padded : List ℕ → List ℕ
padded message = let pad = 16 - length message % 16 in message ++ replicate pad pad

pub length-padded : (m : List ℕ) → length (padded m) ≡ length m + (16 - length m % 16)
length-padded m =
    length-append m (replicate (16 - length m % 16) (16 - length m % 16))
    ∙ ap (λ n. length m + n) (length-replicate (16 - length m % 16) (16 - length m % 16))

-- The buffer before the encryption.
pub prepared :
    (dst iv m : List ℕ) (pad total : ℕ)
    → length iv ≡ 16
    → 48 + length m + pad ≡ total
    → total ≤ length dst
    → let d = put_padding pad (48 + length m) pad (copy_to (copy_to dst 32 iv) 48 m) in
      (take total d ≡ (take 32 dst ++ iv) ++ (m ++ replicate pad pad)) × (length d ≡ length dst)
prepared dst iv m pad total a b c =
    let d1 = copy_to dst 32 iv in
    let d2 = copy_to d1 48 m in
    let l1 = length-copy_to dst 32 iv in
    let l2 = length-copy_to d1 48 m in
    let t1 = take-copy_to dst 32 48 iv (omega arith) (omega arith) in
    let t2 = take-copy_to d1 48 (48 + length m) m refl (omega arith) in
    let t3 = take-put_padding pad (48 + length m) pad d2 (omega arith) in
    (
      subst
          (λ n.
            take n (put_padding pad (48 + length m) pad d2)
            ≡ (take 32 dst ++ iv) ++ (m ++ replicate pad pad))
          b
          (t3.0
            ∙ ap (λ x. x ++ replicate pad pad) (t2 ∙ ap (λ x. x ++ m) t1)
            ∙ append_assoc (take 32 dst ++ iv) m (replicate pad pad)),
      t3.1 ∙ l2 ∙ l1,
    )

-- The parts of a buffer with a head of 32 bytes, an IV and a content.
pub parts :
    (d h iv x : List ℕ) (total : ℕ)
    → length h ≡ 32
    → length iv ≡ 16
    → 48 + length x ≡ total
    → take total d ≡ (h ++ iv) ++ x
    → (take 16 (drop 32 d) ≡ iv)
      × (take 48 d ≡ h ++ iv)
      × (take (length x) (drop 48 d) ≡ x)
      × (take (total - 32) (drop 32 d) ≡ iv ++ x)
parts d h iv x total a b c t =
    let l = length-append h iv in
    let front =
      sym (take-take d 48 total (omega arith))
      ∙ ap (take 48) t
      ∙ take-append (h ++ iv) x 48 (omega arith) in
    (
      take-drop d 32 16 48 refl ∙ ap (drop 32) front ∙ drop-append h iv 32 a,
      front,
      take-drop d 48 (length x) total c ∙ ap (drop 48) t ∙ drop-append (h ++ iv) x 48 (omega arith),
      take-drop d 32 (total - 32) total (omega arith)
          ∙ ap (drop 32) (t ∙ append_assoc h iv x)
          ∙ drop-append h (iv ++ x) 32 a,
    )

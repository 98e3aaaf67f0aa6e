-- ===== src/Ota/Rehash.antt =====
-- The loop of `ota_rehash_flash` of user/ota.c makes the hash of the image again.
use meter_logger.Prelude.{
  ℕ, zero, suc, ◌+◌, ◌*◌, ◌-◌, ◌≤◌, ◌<◌, ◌≡◌, ◌≢◌, if_all, refl, sym, ap, ◌∙◌, subst, Bool-cases,
  Option-cases, inl, inr, if◌then◌else◌, ltb, none, some, List, [], ◌∷◌, ◌++◌, length, take, drop,
  arith,
}
use meter_logger.Ota.State.{FlashCall, OtaEnv, Ota, has_check}
use meter_logger.Ota.Body.{rehash_loop, ota_rehash_flash}
use meter_logger.Ota.Image.{Job, base_of, image, ReadsBack}

pub take-add {ℓ} :
    {A : Type ℓ} (i n : ℕ) (xs : List A) → take (i + n) xs ≡ take i xs ++ take n (drop i xs)
take-add zero n xs = let e : 0 + n ≡ n = omega arith in rw e refl
take-add (suc i) zero [] = let e : suc i + 0 ≡ suc i = omega arith in rw e refl
take-add (suc i) (suc n) [] = let e : suc i + suc n ≡ suc (i + suc n) = omega arith in rw e refl
take-add (suc i) n (x ∷ xs) =
    let e : suc i + n ≡ suc (i + n) = omega arith in rw (e, take-add i n xs) refl

-- The loop from the byte `i` of the image on.
pub rehash_loop_lem :
    (fuel i total : ℕ) (e : OtaEnv) (s : Job) (h : List FlashCall) (ctx c : List ℕ)
    → ReadsBack e s h
    → total ≤ length (image e s h)
    → i ≤ total
    → ctx ≡ take i (image e s h)
    → rehash_loop fuel e h (base_of e s + i) (base_of e s + total) ctx ≡ some c
    → c ≡ take total (image e s h)
unfolding rehash_loop
rehash_loop_lem zero i total e s h ctx c d p q r t = absurd (cc)
rehash_loop_lem (suc fuel) i total e s h ctx c d p q r t =
    let base = base_of e s in
    let n = if ltb (base + total) (base + i + 256) then base + total - (base + i) else 256 in
    let whole = rehash_loop (suc fuel) e h (base + i) (base + total) ctx in
    elim (Bool-cases (ltb (base + i) (base + total))) [
      | inr done ↦
          (let all : i ≡ total = ground (arith, done, q) in
            let stops : whole ≡ some ctx = rw (rehash_loop, done) refl in
            let same : ctx ≡ c = ground (arith, stops, t) in
            sym same ∙ (r ∙ ap (λ k. take k (image e s h)) all))
      | inl more ↦ elim (Option-cases (e.flash_read h (base + i) n)) [
        | inl unread ↦
            (let fails : whole ≡ none = rw (rehash_loop, more, unread) refl in
              absurd (ground (arith, fails, t)))
        | inr read ↦
            (let within : i + n ≤ total = ground (arith, more) in
              let next : whole
                  ≡ rehash_loop fuel e h (base + i + n) (base + total) (ctx ++ read.0) =
                rw (rehash_loop, more, read.1) refl in
              let offset : base + i - base ≡ i = omega arith in
              let back =
                rw offset at
                  (d (base + i) n read.0 read.1 (omega arith) (omega (arith, within, p))) in
              let grown : ctx ++ read.0 ≡ take (i + n) (image e s h) =
                rw (r, back, take-add i n (image e s h)) refl in
              let moved : base + i + n ≡ base + (i + n) = omega arith in
              rehash_loop_lem fuel (i + n) total e s h (ctx ++ read.0) c d p within grown (
                subst (λ a. rehash_loop fuel e h a (base + total) (ctx ++ read.0) ≡ some c) moved
                  (sym next ∙ t)))
      ]
    ]

-- If all reads succeed, the fuel is enough for the loop.
rehash_loop_ends :
    (fuel : ℕ) (e : OtaEnv) (h : List FlashCall) (addr end_addr : ℕ) (ctx : List ℕ)
    → ((a n : ℕ) → e.flash_read h a n ≢ none)
    → addr ≤ end_addr
    → end_addr + 255 < addr + 256 * fuel
    → rehash_loop fuel e h addr end_addr ctx ≢ none
unfolding rehash_loop
rehash_loop_ends zero e h addr end_addr ctx reads l m = absurd (omega (arith, l, m))
rehash_loop_ends (suc fuel) e h addr end_addr ctx reads l m =
    let chunk = if ltb end_addr (addr + 256) then end_addr - addr else 256 in
    elim (Bool-cases (ltb addr end_addr)) [
      | inl p ↦ elim (Option-cases (e.flash_read h addr chunk)) [
        | inl n ↦ absurd (reads addr chunk n)
        | inr f ↦
            (let rest =
                rehash_loop_ends fuel e h (addr + chunk) end_addr (ctx ++ f.0) reads
                  (ground (arith, p)) (ground (arith, p, m)) in
              rw (rehash_loop, p, f.1) rest)
      ]
      | inr p ↦ rw (rehash_loop, p) (λ x. cc (x))
    ]

ota_rehash_flash_ends :
    (e : OtaEnv) (s : Ota)
    → ((a n : ℕ) → e.flash_read s.flash a n ≢ none)
    → ota_rehash_flash e s ≢ none
unfolding ota_rehash_flash
ota_rehash_flash_ends e s reads =
    if_all (λ r. r ≢ none) (has_check s)
      (rehash_loop_ends _ e s.flash _ _ [] reads (omega arith) (omega arith)) (λ x. cc (x))

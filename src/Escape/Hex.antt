-- ===== src/Escape/Hex.antt =====
-- `hex_to_bytes` of user/utils.c against the printing of bytes.
use meter_logger.Prelude.{
  ℕ, zero, suc, ◌+◌, ◌-◌, ◌*◌, ◌/◌, ◌%◌, ◌≤◌, ◌<◌, ◌≡◌, ◌≢◌, refl, sym, ap, ◌∙◌, subst, Bool, true,
  false, if◌then◌else◌, ltb, List, [], ◌∷◌, ◌++◌, length, length-set, some, get_or, take, take-set,
  take_all, set, IsBytes, arith,
}
use meter_logger.Prelude.Text.{Text}
use meter_logger.Escape.{hex_char_to_val, is_hex, put_bytes, hex_to_bytes}

-- The digit of a number below 16, in lower case or not.
abbrev pub hex_digit : Bool → ℕ → ℕ
hex_digit true v = if ltb v 10 then b'0' + v else b'a' + (v - 10)
hex_digit false v = if ltb v 10 then b'0' + v else b'A' + (v - 10)

abbrev pub hex_of : Bool → List ℕ → Text
hex_of lower [] = []
hex_of lower (b ∷ bs) = hex_digit lower (b / 16) ∷ hex_digit lower (b % 16) ∷ hex_of lower bs

hex_char_to_val-hex_digit :
    (lower : Bool) (v : ℕ)
    → v < 16
    → (hex_char_to_val (hex_digit lower v) ≡ some v) × (hex_digit lower v ≢ 0)
unfolding hex_char_to_val
hex_char_to_val-hex_digit true v h = ground arith
hex_char_to_val-hex_digit false v h = ground arith

-- The digits of the byte at `i`.
get_or-hex_of :
    (lower : Bool) (bs : List ℕ) (i j : ℕ)
    → 2 * i ≡ j
    → i < length bs
    → (get_or (hex_of lower bs) j 0 ≡ hex_digit lower (get_or bs i 0 / 16))
      × (get_or (hex_of lower bs) (suc j) 0 ≡ hex_digit lower (get_or bs i 0 % 16))
get_or-hex_of lower [] i j e h = absurd (omega arith)
get_or-hex_of lower (b ∷ bs) zero zero e h = (refl, refl)
get_or-hex_of lower (b ∷ bs) zero (suc j) e h = absurd (omega arith)
get_or-hex_of lower (b ∷ bs) (suc i) zero e h = absurd (omega arith)
get_or-hex_of lower (b ∷ bs) (suc i) (suc zero) e h = absurd (omega arith)
get_or-hex_of lower (b ∷ bs) (suc i) (suc (suc j)) e h =
    get_or-hex_of lower bs i j (omega arith) (omega arith)

get_or-IsByte : (bs : List ℕ) (i : ℕ) → IsBytes bs → get_or bs i 0 < 256
get_or-IsByte [] i p = omega arith
get_or-IsByte (b ∷ bs) zero p = p.0
get_or-IsByte (b ∷ bs) (suc i) p = get_or-IsByte bs i p.1

-- What the loops read at `i`.
digits_at :
    (lower : Bool) (bs : List ℕ) (i : ℕ)
    → IsBytes bs
    → i < length bs
    → let high = get_or (hex_of lower bs) (2 * i) 0 in
      let low = get_or (hex_of lower bs) (2 * i + 1) 0 in
      (hex_char_to_val high ≡ some (get_or bs i 0 / 16))
      × (hex_char_to_val low ≡ some (get_or bs i 0 % 16))
      × (high ≢ 0)
      × (low ≢ 0)
digits_at lower bs i p h =
    let g = get_or-hex_of lower bs i (2 * i) refl h in
    let b = get_or-IsByte bs i p in
    let next : suc (2 * i) ≡ 2 * i + 1 = omega arith in
    let l =
      subst (λ k. get_or (hex_of lower bs) k 0 ≡ hex_digit lower (get_or bs i 0 % 16)) next g.1 in
    let x = hex_char_to_val-hex_digit lower (get_or bs i 0 / 16) (omega arith) in
    let y = hex_char_to_val-hex_digit lower (get_or bs i 0 % 16) (omega arith) in
    (rw g.0 x.0, rw l y.0, rw g.0 x.1, rw l y.1)

is_hex-hex_of :
    (fuel i : ℕ) (lower : Bool) (bs : List ℕ)
    → IsBytes bs
    → i + fuel ≤ length bs
    → is_hex fuel i (hex_of lower bs) ≡ true
unfolding is_hex
is_hex-hex_of zero i lower bs p h = refl
is_hex-hex_of (suc fuel) i lower bs p h =
    let d = digits_at lower bs i p (omega arith) in
    let rest = is_hex-hex_of fuel (suc i) lower bs p (omega arith) in ground (arith, d, rest)

take-suc : (bs : List ℕ) (i : ℕ) → i < length bs → take (suc i) bs ≡ take i bs ++ get_or bs i 0 ∷ []
take-suc [] i h = absurd (omega arith)
take-suc (b ∷ bs) zero h = refl
take-suc (b ∷ bs) (suc i) h = ap (λ t. b ∷ t) (take-suc bs i (omega arith))

put_bytes-hex_of :
    (fuel i : ℕ) (lower : Bool) (bs dst : List ℕ)
    → IsBytes bs
    → i + fuel ≤ length bs
    → length bs ≤ length dst
    → take i dst ≡ take i bs
    → take (i + fuel) (put_bytes fuel i (hex_of lower bs) dst) ≡ take (i + fuel) bs
unfolding put_bytes
put_bytes-hex_of zero i lower bs dst p h k t = let e : i + zero ≡ i = omega arith in rw e t
put_bytes-hex_of (suc fuel) i lower bs dst p h k t =
    let d = digits_at lower bs i p (omega arith) in
    let b = get_or bs i 0 in
    let v : b / 16 * 16 + b % 16 ≡ b = omega arith in
    let next =
      take-set dst i (suc i) b (omega arith) (omega arith)
      ∙ ap (λ x. x ++ b ∷ []) t
      ∙ sym (take-suc bs i (omega arith)) in
    let e : i + suc fuel ≡ suc i + fuel = omega arith in
    let l = length-set dst i b in
    rw (e, d.0, d.1, v)
      (put_bytes-hex_of fuel (suc i) lower bs (set dst i b) p (omega arith) (omega arith) next)

-- The digits of bytes, in upper or lower case, are read back as the bytes.
hex_to_bytes-hex_of :
    (lower : Bool) (bs dst : List ℕ)
    → IsBytes bs
    → length bs ≤ length dst
    → let r = hex_to_bytes (hex_of lower bs) dst (length bs) in
      (r.0 ≡ true) × (take (length bs) r.1 ≡ bs)
unfolding hex_to_bytes
hex_to_bytes-hex_of lower bs dst p h =
    let v = is_hex-hex_of (length bs) 0 lower bs p (omega arith) in
    let e : 0 + length bs ≡ length bs = omega arith in
    let w = put_bytes-hex_of (length bs) 0 lower bs dst p (omega arith) h refl in
    rw v (
      refl,
      subst (λ n. take n (put_bytes (length bs) 0 (hex_of lower bs) dst) ≡ take n bs) e w
          ∙ take_all bs (length bs) (omega arith),
    )

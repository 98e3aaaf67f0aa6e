-- ===== src/Decimal/Thousand.antt =====
-- The decimal numbers of user/utils.c.
use meter_logger.Prelude.{
  ℕ, zero, suc, ◌+◌, ◌-◌, ◌*◌, ◌/◌, ◌%◌, ◌^◌, ◌≤◌, ◌<◌, ◌≡◌, inl, inr, refl, sym, ap, ◌∙◌,
  Bool-cases, true, false, ltb, ltb→lt, [], ◌∷◌, ◌++◌, length, length-append, append_assoc,
  append-nil, All, some, arith,
}
use native.Mathlib.Nat.{pow-suc}
use meter_logger.Prelude.Text.{Text, IsDigit, atoi, digits_from, signed_from, is_space}
use meter_logger.Decimal.{
  pow_loop, int_pow, count_digits, decimal_number_length, scan, thousandfold, multiply_str_by_1000,
}

-- The thousandths that the first three digits stand for.
abbrev pub thousandths : Text → ℕ
thousandths [] = 0
thousandths (a ∷ []) = (a - b'0') * 100
thousandths (a ∷ b ∷ []) = (a - b'0') * 100 + (b - b'0') * 10
thousandths (a ∷ b ∷ c ∷ rest) = (a - b'0') * 100 + (b - b'0') * 10 + (c - b'0')

powers : (int_pow 10 2 ≡ 100) × (int_pow 10 1 ≡ 10) × (int_pow 10 0 ≡ 1)
unfolding int_pow pow_loop
powers = (refl, refl, refl)

-- The digits behind the point.
scan_fraction : (f int : Text) → All IsDigit f → scan f true 0 int 0 ≡ some (int, thousandths f)
unfolding scan int_pow pow_loop
scan_fraction [] int h = refl
scan_fraction (a ∷ []) int h = ground (arith, h.0)
scan_fraction (a ∷ b ∷ []) int h = ground (arith, h.0, h.1.0)
scan_fraction (a ∷ b ∷ c ∷ []) int h = ground (arith, h.0, h.1.0, h.1.1.0)
scan_fraction (a ∷ b ∷ c ∷ d ∷ rest) int h = ground (arith, h.0, h.1.0, h.1.1.0)

-- The digits before the point.
scan_integer :
    (i rest int : Text)
    → All IsDigit i
    → length int + length i ≤ 32
    → scan (i ++ rest) false 0 int 0 ≡ scan rest false 0 (int ++ i) 0
unfolding scan
scan_integer [] rest int h k = ap (λ t. scan rest false 0 t 0) (sym (append-nil int))
scan_integer (c ∷ i) rest int h k =
    let l = length-append int (c ∷ []) in
    let r = scan_integer i rest (int ++ c ∷ []) h.1 (omega arith) in
    let e = append_assoc int (c ∷ []) i in
    let next = r ∙ ap (λ t. scan rest false 0 t 0) e in ground (arith, next, h.0)

atoi-digits_from :
    (i : Text) → All IsDigit i → atoi i ≡ record { negative = false; magnitude = digits_from 0 i }
unfolding atoi signed_from is_space digits_from
atoi-digits_from [] h = refl
atoi-digits_from (c ∷ rest) h = ground (arith, h.0)

point : (f int : Text) → scan (b'.' ∷ f) false 0 int 0 ≡ scan f true 0 int 0
unfolding scan
point f int = refl

-- A number of at most 32 digits before the point and any digits behind it is multiplied by 1000: its
-- integer part a thousandfold and the first three digits behind the point, on 32 bits.
multiply_str_by_1000_lem :
    (i f : Text)
    → All IsDigit i
    → All IsDigit f
    → length i ≤ 32
    → multiply_str_by_1000 (i ++ b'.' ∷ f)
      ≡ some ((1000 * digits_from 0 i + thousandths f) % 2 ^ 32)
unfolding multiply_str_by_1000 thousandfold
multiply_str_by_1000_lem i f h k l =
    rw
      (
        scan_integer i (b'.' ∷ f) [] h (omega arith),
        point f i,
        scan_fraction f i k,
        atoi-digits_from i h,
      )
      refl

count_digits-zero : (fuel d : ℕ) → count_digits fuel 0 d ≡ d
unfolding count_digits
count_digits-zero zero d = refl
count_digits-zero (suc fuel) d = refl

-- A number of k + 1 digits lies between two powers of ten.
abbrev Counts : ℕ → ℕ → ℕ → Type 0
Counts n d r = (k : ℕ) × (r ≡ d + suc k) × (10 ^ k ≤ n) × (n < 10 ^ suc k)

count_digits_lem : (fuel n d : ℕ) → 1 ≤ n → n < 10 ^ fuel → Counts n d (count_digits fuel n d)
unfolding count_digits
count_digits_lem zero n d p q = absurd (omega arith)
count_digits_lem (suc fuel) n d p q =
    let round : count_digits (suc fuel) n d ≡ count_digits fuel (n / 10) (d + 1) = ground arith in
    elim (Bool-cases (ltb n 10)) [
      | inl small ↦
          let none_left : n / 10 ≡ 0 = omega (arith, ltb→lt n 10 small) in
          (
            0,
            round
                ∙ ap (λ m. count_digits fuel m (d + 1)) none_left
                ∙ count_digits-zero fuel (d + 1)
                ∙ omega arith,
            omega arith,
            omega (arith, ltb→lt n 10 small),
          )
      | inr large ↦
          let ten : 10 ≤ n = ground arith in
          let r =
            count_digits_lem fuel (n / 10) (d + 1) (omega arith) (omega (arith, pow-suc 10 fuel)) in
          (
            suc r.0,
            round ∙ r.1 ∙ omega arith,
            omega (arith, r.2, pow-suc 10 r.0),
            omega (arith, r.3, pow-suc 10 (suc r.0)),
          )
    ]

-- The answer for a number of 32 bits that is not 0 is the number of its decimal digits: k + 1 for a number
-- from 10 ^ k to below 10 ^ (k + 1).
pub decimal_number_length_lem :
    (n : ℕ)
    → 1 ≤ n
    → n < 2 ^ 32
    → (k : ℕ) × (decimal_number_length n ≡ suc k) × (10 ^ k ≤ n) × (n < 10 ^ suc k)
unfolding decimal_number_length
decimal_number_length_lem n p q =
    let r = count_digits_lem 10 n 0 p (omega arith) in (r.0, ground (arith, r.1), r.2, r.3)

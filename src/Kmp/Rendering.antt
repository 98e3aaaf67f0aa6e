-- ===== src/Kmp/Rendering.antt =====
-- `kmp_value_to_string` of user/kamstrup/kmp.c prints the value times its power of ten.
use meter_logger.Prelude.{
  ℕ, zero, suc, ◌+◌, ◌-◌, ◌*◌, ◌/◌, ◌%◌, ◌^◌, ◌≤◌, ◌<◌, ◌≡◌, refl, ap, ◌∙◌, Bool, true, false,
  Bool-cases, inl, inr, if◌then◌else◌, ltb, ltb→lt, lt→ltb, leb, [], ◌++◌, length, length-append,
  append_assoc, length-replicate, take_all, replicate, arith,
}
use native.Mathlib.Nat.{pow-le-pow_right, mod-lt, mod-add-div'}
use meter_logger.Prelude.Text.{Text, codes}
use meter_logger.Decimal.{int_pow, pow_loop, decimal_number_length}
use meter_logger.Decimal.Thousand.{decimal_number_length_lem}
use meter_logger.Kmp.Values.{overrun, rendered, zero_count, render_decimals, kmp_value_to_string}

int_pow_10 : (e : ℕ) → e ≤ 9 → int_pow 10 e ≡ 10 ^ e
unfolding int_pow pow_loop
int_pow_10 zero h = refl
int_pow_10 (suc zero) h = refl
int_pow_10 (suc (suc zero)) h = refl
int_pow_10 (suc (suc (suc zero))) h = refl
int_pow_10 (suc (suc (suc (suc zero)))) h = refl
int_pow_10 (suc (suc (suc (suc (suc zero))))) h = refl
int_pow_10 (suc (suc (suc (suc (suc (suc zero)))))) h = refl
int_pow_10 (suc (suc (suc (suc (suc (suc (suc zero))))))) h = refl
int_pow_10 (suc (suc (suc (suc (suc (suc (suc (suc zero)))))))) h = refl
int_pow_10 (suc (suc (suc (suc (suc (suc (suc (suc (suc zero))))))))) h = refl
int_pow_10 (suc (suc (suc (suc (suc (suc (suc (suc (suc (suc n)))))))))) h = absurd (omega arith)

pow_small : (e : ℕ) → e ≤ 9 → 10 ^ e ≤ 10 ^ 9
pow_small e h = pow-le-pow_right (omega arith) h

-- The number of digits of a fraction is at most that of the decimals.
digits_le : (e n : ℕ) → 1 ≤ e → e ≤ 9 → n < 10 ^ e → decimal_number_length n ≤ e
unfolding decimal_number_length
digits_le e zero p q h = p
digits_le e (suc n) p q h =
    let small : suc n < 2 ^ 32 = omega (arith, h, pow_small e q) in
    let r = decimal_number_length_lem (suc n) (omega arith) small in
    elim (Bool-cases (ltb r.0 e)) [
      | inl k ↦ omega (arith, r.1, ltb→lt r.0 e k)
      | inr k ↦
          (let far : e ≤ r.0 = ground (arith, k) in
            let le : 10 ^ e ≤ 10 ^ r.0 = pow-le-pow_right (omega arith) far in
            absurd (omega (arith, le, r.2, h)))
    ]

-- `%u` prints the decimal digits.
abbrev pub IsPrinter : (ℕ → Text) → Type 0
IsPrinter print = (n : ℕ) → n < 2 ^ 32 → length (print n) ≡ decimal_number_length n

-- The fraction with its leading zeros.
abbrev pub fraction : (ℕ → Text) → ℕ → ℕ → Text
fraction print e n = replicate (e - decimal_number_length n) b'0' ++ print n

length_digits : (n : ℕ) → n < 2 ^ 32 → decimal_number_length n ≤ 10
unfolding decimal_number_length
length_digits zero h = omega arith
length_digits (suc n) h =
    let r = decimal_number_length_lem (suc n) (omega arith) h in
    elim (Bool-cases (ltb r.0 10)) [
      | inl k ↦ omega (arith, r.1, ltb→lt r.0 10 k)
      | inr k ↦
          (let far : 10 ≤ r.0 = ground (arith, k) in
            let le : 10 ^ 10 ≤ 10 ^ r.0 = pow-le-pow_right (omega arith) far in
            absurd (omega (arith, le, r.2, h)))
    ]

the_le : (e : ℕ) → 1 ≤ 10 ^ e
the_le zero = omega arith
the_le (suc e) =
    let le : 10 ^ 0 ≤ 10 ^ suc e =
      pow-le-pow_right {n = 10} (omega arith) {i = 0} {j = suc e} (omega arith) in
    omega (arith, le)

render_decimals_lem :
    (print : ℕ → Text) (sign : Text) (size value e : ℕ)
    → IsPrinter print
    → value < 2 ^ 32
    → 1 ≤ e
    → e ≤ 9
    → length sign + 22 ≡ size
    → render_decimals print sign size value e (10 ^ e)
      ≡ rendered (sign ++ print (value / 10 ^ e) ++ codes "." ++ fraction print e (value % 10 ^ e))
unfolding render_decimals zero_count
render_decimals_lem print sign size value e p v a b c =
    let factor = 10 ^ e in
    let q = value / factor in
    let r = value % factor in
    let whole = mod-add-div' value factor in
    let positive : 0 < factor = omega (arith, the_le e) in
    let below : r < factor = mod-lt value positive in
    let frac : (value + (2 ^ 32 - q * factor)) % 2 ^ 32 ≡ r = omega (arith, whole) in
    let digits = digits_le e r a b below in
    let zeros : (e + (2 ^ 32 - decimal_number_length r)) % 2 ^ 32 ≡ e - decimal_number_length r =
      omega arith in
    let fits : ltb (e - decimal_number_length r) 16 ≡ true = lt→ltb _ 16 (omega arith) in
    let nought : ℕ = b'0' in
    let zs = replicate (e - decimal_number_length r) nought in
    let text = sign ++ print q ++ codes "." ++ zs ++ print r in
    let short : length text ≤ size + (e - decimal_number_length r) - 1 = omega (
      arith,
      length-append (sign ++ print q ++ codes "." ++ zs) (print r),
      length-append (sign ++ print q ++ codes ".") zs,
      length-append (sign ++ print q) (codes "."),
      length-append sign (print q),
      length-replicate (e - decimal_number_length r) nought,
      p q (omega (arith, whole)),
      p r (omega (arith, whole)),
      length_digits q (omega (arith, whole)),
      length_digits r (omega (arith, whole)),
    ) in
    rw (frac, zeros, fits)
      (ap rendered
        (take_all text _ short ∙ append_assoc (sign ++ print q ++ codes ".") zs (print r)))

remainder_lt : (value e : ℕ) → value % 10 ^ e < 10 ^ e
remainder_lt value e = mod-lt value (omega (arith, the_le e))

length-fraction :
    (print : ℕ → Text) (value e : ℕ)
    → IsPrinter print
    → value < 2 ^ 32
    → 1 ≤ e
    → e ≤ 9
    → length (fraction print e (value % 10 ^ e)) ≡ e
length-fraction print value e p v a b =
    let r = value % 10 ^ e in
    let below = remainder_lt value e in
    let digits = digits_le e r a b below in
    let nought : ℕ = b'0' in
    let n = e - decimal_number_length r in
    omega (
      arith,
      digits,
      length-append (replicate n nought) (print r),
      length-replicate n nought,
      p r (omega (arith, below, pow_small e b)),
    )

-- `si_ex` of a value with decimals: the sign, and the number of decimals.
abbrev pub si_ex_of : Bool → ℕ → ℕ
si_ex_of negative e = (if negative then 192 else 64) + e

abbrev pub sign_of : Bool → Text
sign_of negative = if negative then codes "-" else []

-- A value with one to nine decimals is printed as its sign, its whole part, a point and its fraction,
-- which has exactly so many digits, where print is the unsigned format.
pub kmp_value_to_string_lem :
    (print : ℕ → Text) (value e : ℕ) (negative : Bool)
    → IsPrinter print
    → value < 2 ^ 32
    → 1 ≤ e
    → e ≤ 9
    → let digits = fraction print e (value % 10 ^ e) in
      (kmp_value_to_string print value (si_ex_of negative e)
        ≡ rendered (sign_of negative ++ print (value / 10 ^ e) ++ codes "." ++ digits))
      × (length digits ≡ e)
unfolding kmp_value_to_string
kmp_value_to_string_lem print value e true p v a b =
    let digits = length-fraction print value e p v a b in
    let exponent : (192 + e) % 2 ^ 6 ≡ e = omega arith in
    let sign_i : leb 128 ((192 + e) % 2 ^ 8) ≡ true = ground arith in
    let sign_e : leb 64 ((192 + e) % 2 ^ 7) ≡ true = ground arith in
    let small : ltb 9 e ≡ false = ground arith in
    let done = render_decimals_lem print (codes "-") 23 value e p v a b refl in
    (rw (exponent, sign_i, sign_e, small, int_pow_10 e b) done, digits)
kmp_value_to_string_lem print value e false p v a b =
    let digits = length-fraction print value e p v a b in
    let exponent : (64 + e) % 2 ^ 6 ≡ e = omega arith in
    let sign_i : leb 128 ((64 + e) % 2 ^ 8) ≡ false = ground arith in
    let sign_e : leb 64 ((64 + e) % 2 ^ 7) ≡ true = ground arith in
    let small : ltb 9 e ≡ false = ground arith in
    let done = render_decimals_lem print [] 22 value e p v a b refl in
    (rw (exponent, sign_i, sign_e, small, int_pow_10 e b) done, digits)

-- A value whose `si_ex` says that it has no decimals, by an exponent of 0 with its sign set, makes the loop
-- over the leading zeros run 2^32 - 1 times and write past them, for every value below 2^31.
pub kmp_value_to_string-overrun :
    (print : ℕ → Text) (value : ℕ) (negative : Bool)
    → value < 2 ^ 31
    → kmp_value_to_string print value (si_ex_of negative 0) ≡ overrun
unfolding kmp_value_to_string render_decimals zero_count int_pow decimal_number_length
kmp_value_to_string-overrun print value true h =
    let frac : (value + (2 ^ 32 - value / 1 * 1)) % 2 ^ 32 ≡ 0 = omega arith in rw frac refl
kmp_value_to_string-overrun print value false h =
    let frac : (value + (2 ^ 32 - value / 1 * 1)) % 2 ^ 32 ≡ 0 = omega arith in rw frac refl

-- ===== src/Decimal.antt =====
-- user/utils.c: `int_pow`, `decimal_number_length` and `multiply_str_by_1000`, on numbers that are not
-- negative. The module Thousand proves.
use meter_logger.Prelude.{
  ℕ, zero, suc, ◌+◌, ◌-◌, ◌*◌, ◌/◌, ◌%◌, ◌^◌, Bool, true, false, if◌then◌else◌, ltb, leb, ◌==◌,
  List, [], ◌∷◌, ◌++◌, length, Option, none, some,
}
use meter_logger.Prelude.Text.{Text, Signed, atoi}
pub mod Thousand
pub mod Tests

-- The loop of `int_pow` with `fuel` rounds left, on 32 bits.
unfoldable pub pow_loop : ℕ → ℕ → ℕ → ℕ
pow_loop zero x result = result
pow_loop (suc fuel) x result = pow_loop fuel x (result * x % 2 ^ 32)

unfoldable pub int_pow : ℕ → ℕ → ℕ
int_pow x y = if y == 0 then 1 else pow_loop (y - 1) x x

-- The loop of `decimal_number_length`, which ends at 0; ten rounds are enough for 32 bits.
unfoldable pub count_digits : ℕ → ℕ → ℕ → ℕ
count_digits zero un digits = digits
count_digits (suc fuel) un digits = elim (un == 0) [
  | true ↦ digits
  | false ↦ count_digits fuel (un / 10) (digits + 1)
]

unfoldable pub decimal_number_length : ℕ → ℕ
decimal_number_length n = if n == 0 then 1 else count_digits 10 n 0

-- The loop of `multiply_str_by_1000` over the rest of the string: `dec_separator`, `pos_frac`, the digits
-- in `result_int_str` and `result_frac`. None is a write behind the 33 bytes of `result_int_str`, its
-- NUL included.
unfoldable pub scan : Text → Bool → ℕ → Text → ℕ → Option (Text × ℕ)
scan [] sep pos_frac int frac = some (int, frac)
scan (c ∷ rest) sep pos_frac int frac = elim (ltb pos_frac 3) [
  | false ↦ some (int, frac)
  | true ↦ elim (c == b'.') [
    | true ↦ scan rest true pos_frac int frac
    | false ↦ elim sep [
      | false ↦ elim (ltb (length int) 32) [
        | true ↦ scan rest false pos_frac (int ++ c ∷ []) frac
        | false ↦ none
      ]
      | true ↦
          scan rest true (pos_frac + 1) int
            ((frac + (c + 2 ^ 32 - b'0') * int_pow 10 (2 - pos_frac)) % 2 ^ 32)
    ]
  ]
]

-- `1000 * atoi(result_int_str) + result_frac` on 32 bits.
unfoldable pub thousandfold : Option (Text × ℕ) → Option ℕ
thousandfold none = none
thousandfold (some (int, frac)) =
    let n = atoi int in
    some ((1000 * (if n.negative then 2 ^ 32 - n.magnitude else n.magnitude) + frac) % 2 ^ 32)

-- The number that `multiply_str_by_1000` prints.
unfoldable pub multiply_str_by_1000 : Text → Option ℕ
multiply_str_by_1000 str = thousandfold (scan str false 0 [] 0)

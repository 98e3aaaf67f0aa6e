-- ===== src/Kmp/Encoding.antt =====
-- Registers as the meter encodes them for `kmp_decode_frame` of user/kamstrup/kmp.c: the value has as many bytes
-- as the length field of the register says.
use meter_logger.Prelude.{
  ℕ, zero, suc, ◌*◌, ◌<◌, ◌/◌, ◌%◌, ◌^◌, ◌≡◌, refl, List, [], ◌∷◌, ◌++◌, All, arith,
}
use meter_logger.Kmp.Response.{Register}
use meter_logger.Kmp.Registers.{Fits, reply_bytes}

-- A number in a count of bytes, high bytes first.
abbrev pub big_endian : ℕ → ℕ → List ℕ
big_endian zero value = []
big_endian (suc count) value = value / 2 ^ (8 * count) % 2 ^ 8 ∷ big_endian count value

-- Number, unit, length, exponent and value.
abbrev pub encoded : List Register → List ℕ
encoded [] = []
encoded (r ∷ rest) =
    big_endian 2 r.rid
    ++ r.unit ∷ r.length ∷ r.si_ex ∷ []
    ++ big_endian r.length r.value
    ++ encoded rest

-- The value has four bytes.
pub record IsWord (r : Register) : Type 0 where
  pub fits : Fits r
  pub four : r.length ≡ 4

pub IsWord-Fits : (rs : List Register) → All IsWord rs → All Fits rs
IsWord-Fits [] h = _
IsWord-Fits (r ∷ rest) h = (h.0.fits, IsWord-Fits rest h.1)

high_bytes : (rid : ℕ) → rid < 2 ^ 16 → rid / 2 ^ 8 % 2 ^ 8 ≡ rid / 2 ^ 8
high_bytes rid h = omega arith

-- With values of four bytes, each register has nine.
pub encoded-nine : (rs : List Register) → All IsWord rs → encoded rs ≡ reply_bytes rs
encoded-nine [] h = refl
encoded-nine (r ∷ rest) h =
    let rid_0 : r.rid / 2 ^ 8 % 2 ^ 8 ≡ r.rid / 2 ^ 8 = omega (arith, h.0.fits.rid) in
    let rid_1 : r.rid / 1 % 2 ^ 8 ≡ r.rid % 2 ^ 8 = omega arith in
    let value_0 : r.value / 2 ^ 24 % 2 ^ 8 ≡ r.value / 2 ^ 24 = omega (arith, h.0.fits.value) in
    let value_3 : r.value / 1 % 2 ^ 8 ≡ r.value % 2 ^ 8 = omega arith in
    rw (h.0.four, encoded-nine rest h.1, rid_0, rid_1, value_0, value_3) refl

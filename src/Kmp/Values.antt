-- ===== src/Kmp/Values.antt =====
-- `kmp_value_to_string` and `kmp_unit_to_string` of user/kamstrup/kmp.c: the values and units as texts.
use meter_logger.Prelude.{
  ℕ, ◌+◌, ◌-◌, ◌*◌, ◌/◌, ◌%◌, ◌^◌, if◌then◌else◌, ltb, leb, ◌==◌, [], ◌++◌, take, replicate,
}
use meter_logger.Prelude.Text.{Text, codes}
use meter_logger.Decimal.{int_pow, decimal_number_length}

-- The answer false, the answer true with the text, or a write past `leading_zeroes`.
pub data Rendered : Type 0 where
  not_rendered overrun : Rendered
  rendered : Text → Rendered

-- `exponent - decimal_number_length(result_frac)` on 32 bits, since the length is unsigned.
unfoldable pub zero_count : ℕ → ℕ → ℕ
zero_count exponent result_frac = (exponent + (2 ^ 32 - decimal_number_length result_frac)) % 2 ^ 32

-- A value with decimals, where `(int32_t)result` is meant below 2^31: `tfp_snprintf(value_string, size + i, "%u.%s%u", ...)` behind a sign. The array
-- `leading_zeroes` has 16 bytes.
unfoldable pub render_decimals : (ℕ → Text) → Text → ℕ → ℕ → ℕ → ℕ → Rendered
render_decimals print sign size value exponent factor =
    let result_int = value / factor in
    let result_frac = (value + (2 ^ 32 - result_int * factor)) % 2 ^ 32 in
    let zeros = zero_count exponent result_frac in
    let text = sign ++ print result_int ++ codes "." ++ replicate zeros b'0' ++ print result_frac in
    if ltb zeros 16 then rendered (take (size + zeros - 1) text) else overrun

-- The value and `si_ex` as bit patterns, where `print` is `%u` of tinyprintf.
unfoldable pub kmp_value_to_string : (ℕ → Text) → ℕ → ℕ → Rendered
kmp_value_to_string print value si_ex =
    let sign_i = leb 128 (si_ex % 2 ^ 8) in
    let sign_e = leb 64 (si_ex % 2 ^ 7) in
    let exponent = si_ex % 2 ^ 6 in
    let factor = int_pow 10 exponent in
    if ltb 9 exponent
    then not_rendered
    else if sign_i
    then (if sign_e
        then render_decimals print (codes "-") 23 value exponent factor
        else rendered (take 11 (codes "-" ++ print (value * factor % 2 ^ 32))))
    else (if sign_e
        then render_decimals print [] 22 value exponent factor
        else rendered (take 10 (print (value * factor % 2 ^ 32))))

unfoldable pub kmp_unit_to_string : ℕ → Text
kmp_unit_to_string unit =
    if unit == 0x01
    then codes "Wh"
    else if unit == 0x02
    then codes "kWh"
    else if unit == 0x03
    then codes "MWh"
    else if unit == 0x08
    then codes "Gj"
    else if unit == 0x0c
    then codes "Gcal"
    else if unit == 0x16
    then codes "kW"
    else if unit == 0x17
    then codes "MW"
    else if unit == 0x25
    then codes "C"
    else if unit == 0x26
    then codes "K"
    else if unit == 0x27
    then codes "l"
    else if unit == 0x28
    then codes "m3"
    else if unit == 0x29
    then codes "l/h"
    else if unit == 0x2a
    then codes "m3/h"
    else if unit == 0x2b
    then codes "m3xC"
    else if unit == 0x2c
    then codes "ton"
    else if unit == 0x2d
    then codes "ton/h"
    else if unit == 0x2e
    then codes "h"
    else if unit == 0x2f
    then codes "clock"
    else if unit == 0x30
    then codes "date1"
    else if unit == 0x32
    then codes "date3"
    else if unit == 0x33
    then codes "number"
    else if unit == 0x34
    then codes "bar"
    else codes "unknown"

-- ===== src/Escape.antt =====
-- user/utils.c: the hexadecimal digits (`hex_char_to_val`, `hex_to_bytes`); the module Query has the escapes
-- of the query strings. The modules Hex and Percent prove.
use meter_logger.Prelude.{
  ℕ, zero, suc, ◌+◌, ◌-◌, ◌*◌, ◌%◌, Bool, true, false, ◌&&◌, ◌||◌, if◌then◌else◌, ltb, leb, ◌==◌,
  List, [], ◌∷◌, ◌++◌, length, Option, none, some, get_or, set,
}
use meter_logger.Prelude.Text.{Text}
pub mod Hex
pub mod Query
pub mod Percent
pub mod Tests

-- `hex_char_to_val`; none is -1.
unfoldable pub hex_char_to_val : ℕ → Option ℕ
hex_char_to_val c =
    if leb b'0' c && leb c b'9'
    then some (c - b'0')
    else if leb b'a' c && leb c b'f'
    then some (c - b'a' + 10)
    else if leb b'A' c && leb c b'F'
    then some (c - b'A' + 10)
    else none

abbrev pub is_some : Option ℕ → Bool
is_some none = false
is_some (some x) = true

abbrev pub value_or_zero : Option ℕ → ℕ
value_or_zero none = 0
value_or_zero (some x) = x

-- The first loop of `hex_to_bytes` from i on: whether all digits are valid. Behind the end of `hex`
-- stands its NUL.
unfoldable pub is_hex : ℕ → ℕ → Text → Bool
is_hex zero i hex = true
is_hex (suc fuel) i hex =
    let high = get_or hex (2 * i) 0 in
    let low = get_or hex (2 * i + 1) 0 in
    let rest = is_hex fuel (suc i) hex in
    if high == 0 || low == 0
    then false
    else if is_some (hex_char_to_val high) && is_some (hex_char_to_val low)
    then rest
    else false

-- The second loop of `hex_to_bytes` from i on.
unfoldable pub put_bytes : ℕ → ℕ → Text → List ℕ → List ℕ
put_bytes zero i hex bytes = bytes
put_bytes (suc fuel) i hex bytes =
    let high = value_or_zero (hex_char_to_val (get_or hex (2 * i) 0)) in
    let low = value_or_zero (hex_char_to_val (get_or hex (2 * i + 1) 0)) in
    put_bytes fuel (suc i) hex (set bytes i (high * 16 + low))

-- `hex_to_bytes`, where none of the pointers is NULL: the answer and the bytes.
unfoldable pub hex_to_bytes : Text → List ℕ → ℕ → Bool × List ℕ
hex_to_bytes hex bytes len =
    if is_hex len 0 hex then (true, put_bytes len 0 hex bytes) else (false, bytes)

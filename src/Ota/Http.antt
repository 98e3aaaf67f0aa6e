-- ===== src/Ota/Http.antt =====
-- user/ota.c: the header of an HTTP answer. A pointer into the header is the text behind it.
use meter_logger.Prelude.{
  ℕ, zero, suc, ◌+◌, ◌-◌, ◌*◌, ◌/◌, Bool, true, false, ◌&&◌, ◌||◌, Option, none, some,
  if◌then◌else◌, ltb, leb, ◌==◌, [], ◌∷◌, length, drop, get_or,
}
use meter_logger.Prelude.Text.{Text, codes, is_digit}
use meter_logger.Escape.{value_or_zero}
use meter_logger.Prelude.Search.{starts_with, find}

infixl 5 ◌>>=◌ ◌>>◌
abbrev pub ◌>>=◌ : {A B : Type 0} → Option A → (A → Option B) → Option B
none >>= f = none
some a >>= f = f a

abbrev pub ◌>>◌ : {B : Type 0} → Option (Unit {0}) → Option B → Option B
m >> k = m >>= λ _. k

abbrev pub ensure : Bool → Option (Unit {0})
ensure true = some tt
ensure false = none

-- The end of a line in HTTP.
abbrev pub crlf : Text
crlf = 13 ∷ 10 ∷ []

abbrev pub is_blank : ℕ → Bool
is_blank c = c == 32 || c == 9

unfoldable pub ota_ascii_lower : ℕ → ℕ
ota_ascii_lower c = if leb b'A' c && leb c b'Z' then c + 32 else c

-- Behind the end of `a` stands its NUL.
unfoldable pub ota_ascii_equal_n : Text → Text → ℕ → Bool
unfolding ota_ascii_lower
ota_ascii_equal_n a b zero = true
ota_ascii_equal_n a b (suc len) =
    ota_ascii_lower (get_or a 0 0) == ota_ascii_lower (get_or b 0 0)
    && ota_ascii_equal_n (drop 1 a) (drop 1 b) len

unfoldable pub skip_blanks : Text → Text
skip_blanks [] = []
skip_blanks (c ∷ s) = let rest = skip_blanks s in if is_blank c then rest else c ∷ s

-- The value of a header, which the loop has found so far, and whether the header stands there twice.
abbrev pub Found : Type 0
Found = Option Text × Bool

abbrev pub note_value : Text → Found → Found
note_value value (none, dup) = (some value, dup)
note_value value (some v, dup) = (some v, true)

-- Whether the first colon ends the name that is looked for.
unfoldable pub names : Text → Text → ℕ → Option ℕ → Bool
unfolding ota_ascii_equal_n
names name line line_end none = false
names name line line_end (some colon) =
    ltb colon line_end && (colon == length name && ota_ascii_equal_n line name (length name))

-- The loop over the lines from `line` on; each line takes at least two characters.
unfoldable pub header_lines : ℕ → Text → Text → Found → Found
unfolding names
header_lines zero name line found = found
header_lines (suc fuel) name line found = elim (find crlf line) [
  | none ↦ elim line [ [] ↦ found | c ∷ rest ↦ (none, found.1) ]
  | some line_end ↦
      (let colon = find (b':' ∷ []) line in
        let value = skip_blanks (drop (value_or_zero colon + 1) line) in
        let next = if names name line line_end colon then note_value value found else found in
        elim (line_end == 0) [
          | true ↦ found
          | false ↦ header_lines fuel name (drop (line_end + 2) line) next
        ])
]

unfoldable pub ota_get_header_value : Text → Text → Found
unfolding header_lines
ota_get_header_value headers name = elim (find crlf headers) [
  | none ↦ (none, false)
  | some i ↦ header_lines (length headers) name (drop (i + 2) headers) (none, false)
]

-- The loop over decimal digits, with what stands behind them; none is a number of more than 32 bits.
unfoldable pub digits_loop : ℕ → Bool → Text → Option (ℕ × Bool × Text)
unfolding is_digit
digits_loop value have [] = some (value, have, [])
digits_loop value have (c ∷ s) =
    let digit = c - b'0' in
    let rest = digits_loop (value * 10 + digit) true s in
    if is_digit c
    then (if ltb ((0xffffffff - digit) / 10) value then none else rest)
    else some (value, have, c ∷ s)

-- At least one digit.
unfoldable pub read_number : Text → Option (ℕ × Text)
unfolding digits_loop
read_number s = do (value, have, rest) ← digits_loop 0 false s; ensure have; some (value, rest)

-- Whether blanks and the end of the line follow.
unfoldable pub ends_line : Text → Bool
unfolding skip_blanks
ends_line s = let c = get_or (skip_blanks s) 0 0 in c == 13 || (c == 10 || c == 0)

unfoldable pub ota_parse_uint32 : Text → Option ℕ
unfolding read_number skip_blanks ends_line
ota_parse_uint32 p = do
  (value, rest) ← read_number (skip_blanks p)
  ensure (ends_line rest)
  some value

-- The text behind a character that is required.
abbrev pub expect : ℕ → Text → Option Text
expect c [] = none
expect c (d ∷ s) = if d == c then some s else none

-- The start and the end of the range, and the size of the whole.
unfoldable pub ota_parse_content_range : Text → Option (ℕ × ℕ × ℕ)
unfolding read_number skip_blanks ends_line ota_ascii_equal_n
ota_parse_content_range p = do
  ensure (ota_ascii_equal_n (skip_blanks p) (codes "bytes") 5)
  ensure (is_blank (get_or (drop 5 (skip_blanks p)) 0 0))
  (start, p1) ← read_number (skip_blanks (drop 5 (skip_blanks p)))
  p2 ← expect b'-' p1
  (end, p3) ← read_number p2
  p4 ← expect b'/' p3
  (total, p5) ← read_number p4
  ensure (ends_line p5)
  some (start, end, total)

-- The status code of the header.
unfoldable pub ota_parse_status_code : Text → Option ℕ
unfolding is_digit
ota_parse_status_code line = do
  line_end ← find crlf line
  ensure (starts_with (codes "HTTP/1.0 ") line || starts_with (codes "HTTP/1.1 ") line)
  ensure (leb 12 line_end)
  let at = λ (i : ℕ). get_or line i 0
  ensure (is_digit (at 9) && (is_digit (at 10) && is_digit (at 11)))
  ensure (at 12 == 32 || at 12 == 13)
  some ((at 9 - b'0') * 100 + (at 10 - b'0') * 10 + (at 11 - b'0'))

-- ===== src/Escape/Query.antt =====
-- user/utils.c: `query_string_escape` and `query_string_unescape` on C strings.
use meter_logger.Prelude.{
  ℕ, ◌+◌, true, false, ◌&&◌, if◌then◌else◌, leb, ◌==◌, [], ◌∷◌, ◌++◌, length, Option, none, some,
}
use meter_logger.Prelude.Text.{Text}

-- What the loop of `query_string_escape` for the character `c` leaves, with the length `len` of the whole
-- string so far: the length, or none for -1, and the text. Where the space ends, the rest stays as it is.
unfoldable pub escape_pass : ℕ → Text → ℕ → ℕ → Text → Option ℕ × Text
escape_pass c code size len [] = (some len, [])
escape_pass c code size len (x ∷ xs) =
    let long = escape_pass c code size (len + 2) xs in
    let same = escape_pass c code size len xs in
    if x == c
    then (if leb size (len + 2) then (none, x ∷ xs) else (long.0, code ++ long.1))
    else (same.0, x ∷ same.1)

-- After the escape of '&' comes that of '=', unless the space has ended.
abbrev pub then_equals : ℕ → Option ℕ × Text → Option ℕ × Text
then_equals size (none, text) = (none, text)
then_equals size (some len, text) = escape_pass b'=' (b'%' ∷ b'3' ∷ b'D' ∷ []) size len text

unfoldable pub query_string_escape : Text → ℕ → Option ℕ × Text
query_string_escape str size =
    then_equals size (escape_pass b'&' (b'%' ∷ b'2' ∷ b'6' ∷ []) size (length str) str)

-- A loop of `query_string_unescape`: each occurrence of '%', `d`, `e` becomes `c`.
unfoldable pub unescape_pass : ℕ → ℕ → ℕ → Text → Text
unescape_pass d e c [] = []
unescape_pass d e c (x ∷ []) = x ∷ []
unescape_pass d e c (x ∷ y ∷ []) = x ∷ y ∷ []
unescape_pass d e c (x ∷ y ∷ z ∷ rest) = elim (x == b'%' && y == d && z == e) [
  | true ↦ c ∷ unescape_pass d e c rest
  | false ↦ x ∷ unescape_pass d e c (y ∷ z ∷ rest)
]

-- The length and the text that `query_string_unescape` leaves.
unfoldable pub query_string_unescape : Text → ℕ × Text
query_string_unescape str =
    let text =
      unescape_pass b'3' b'D' b'='
        (unescape_pass b'3' b'd' b'=' (unescape_pass b'2' b'6' b'&' str)) in
    (length text, text)

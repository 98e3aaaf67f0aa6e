-- ===== src/Escape/Tests.antt =====
-- Runs of the hexadecimal digits and of the query strings of user/utils.c.
use meter_logger.Prelude.{◌≡◌, refl, false, [], ◌∷◌, arith}
use meter_logger.Prelude.Text.{codes}
use meter_logger.Escape.{is_hex, hex_char_to_val, hex_to_bytes}
use meter_logger.Prelude.{some, none}
use meter_logger.Escape.Query.{
  query_string_escape, query_string_unescape, escape_pass, unescape_pass,
}
use meter_logger.Escape.Percent.{query_string_unescape-escape}

-- A digit that is none leaves the bytes as they are.
hex_refused : hex_to_bytes (codes "0x") (7 ∷ []) 1 ≡ (false, 7 ∷ [])
unfolding hex_to_bytes is_hex hex_char_to_val
hex_refused = refl

-- A text that ends before its length is refused.
hex_short : hex_to_bytes (codes "0fA") (7 ∷ 8 ∷ []) 2 ≡ (false, 7 ∷ 8 ∷ [])
unfolding hex_to_bytes is_hex hex_char_to_val
hex_short = refl

-- A '%' is not escaped, so that what looks like an escape does not come back.
percent_lost : query_string_unescape (query_string_escape (codes "%26") 10).1 ≡ (1, codes "&")
unfolding query_string_escape query_string_unescape escape_pass unescape_pass
percent_lost = refl

-- "a&b" has no room for its escape in 5 bytes, with the terminating NUL.
no_space : query_string_escape (codes "a&b") 5 ≡ (none, codes "a&b")
unfolding query_string_escape escape_pass
no_space = refl

query_string_unescape-escape_example :
    let r = query_string_escape (codes "a&b=c") 10 in
    (r.0 ≡ some 9) × (query_string_unescape r.1 ≡ (5, codes "a&b=c"))
query_string_unescape-escape_example =
    query_string_unescape-escape (codes "a&b=c") 10
      (omega arith, (omega arith, (omega arith, (omega arith, (omega arith, tt))))) (omega arith)

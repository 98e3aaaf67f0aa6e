-- ===== src/Kmp/Wire.antt =====
-- The wire format of the Kamstrup Meter Protocol, as a specification for user/kamstrup/kmp.c: start
-- byte, stuffed body with its CRC, stop byte.
use meter_logger.Prelude.{ℕ, ◌/◌, ◌%◌, List, [], ◌∷◌, ◌++◌}
use meter_logger.Crc.{ccit_crc16}
use meter_logger.Kmp.Frame.{stuff_bytes}

-- The CRC of a body, high byte first.
abbrev pub crc_bytes : List ℕ → List ℕ
crc_bytes body = ccit_crc16 0 body / 256 ∷ ccit_crc16 0 body % 256 ∷ []

abbrev pub wire : ℕ → List ℕ → List ℕ
wire start content = start ∷ (stuff_bytes content ++ 0x0d ∷ [])

abbrev pub request : List ℕ → List ℕ
request body = wire 0x80 (body ++ crc_bytes body)

-- Two bytes for each register number.
abbrev pub register_bytes : List ℕ → List ℕ
register_bytes [] = []
register_bytes (r ∷ rest) = r / 256 % 256 ∷ r % 256 ∷ register_bytes rest

-- ===== src/Crc/Polynomial.antt =====
-- The division that the table of user/utils.c abbreviates: CRC-CCITT with the polynomial
-- x^16 + x^12 + x^5 + 1, bit by bit, most significant bit first. This is not code of the program.
use meter_logger.Prelude.{ℕ, zero, suc, ◌*◌, ◌%◌, ◌^◌, bit_xor, List, [], ◌∷◌, if◌then◌else◌, leb}

-- One bit: shift left, and subtract the polynomial if a one falls out.
unfoldable pub divide_bit : ℕ → ℕ
divide_bit r = if leb (2 ^ 15) r then bit_xor (r * 2 % 2 ^ 16) 0x1021 else r * 2

unfoldable pub divide_bits : ℕ → ℕ → ℕ
divide_bits zero r = r
divide_bits (suc n) r = divide_bits n (divide_bit r)

-- The byte enters at the top, and eight bits are divided.
unfoldable pub crc_bitwise : ℕ → List ℕ → ℕ
crc_bitwise crc [] = crc
crc_bitwise crc (byte ∷ rest) = crc_bitwise (divide_bits 8 (bit_xor crc (byte * 2 ^ 8))) rest

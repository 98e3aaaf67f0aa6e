-- ===== src/Crc/Table.antt =====
-- The table of user/utils.c against the polynomial division, entry by entry.
use meter_logger.Prelude.{
  ℕ, ◌+◌, ◌*◌, ◌/◌, ◌%◌, ◌^◌, ◌<◌, bit_xor, ◌≡◌, refl, Bool, true, ◌==◌, ==_iff, ltb, ltb→lt,
  bit_and, get_or, arith,
}
use meter_logger.Prelude.Bits.{checked, checked_lem, bit_and_byte, xor_fields, xor-lt}
use meter_logger.Crc.{ccit_crc16_table, crc_round}
use meter_logger.Crc.Polynomial.{divide_bit, divide_bits}

cell_divides : ℕ → ℕ → Bool
cell_divides h l =
    divide_bits 8 (h * 2 ^ 8 + l) == bit_xor (l * 2 ^ 8) (get_or ccit_crc16_table h 0)

row_divides : ℕ → Bool
row_divides h = checked (cell_divides h) 256

rows_divide : checked row_divides 256 ≡ true
unfolding row_divides cell_divides ccit_crc16_table divide_bits divide_bit checked
rows_divide = refl

row_lem : (h : ℕ) → h < 256 → checked (cell_divides h) 256 ≡ true
unfolding row_divides
row_lem h p = checked_lem row_divides 256 h rows_divide p

-- Dividing eight bits of `h * 256 + l` by the polynomial is one look in the table.
pub divide_bits-table :
    (h l : ℕ)
    → h < 256
    → l < 256
    → divide_bits 8 (h * 2 ^ 8 + l) ≡ bit_xor (l * 2 ^ 8) (get_or ccit_crc16_table h 0)
unfolding cell_divides
divide_bits-table h l p q = (==_iff _ _).0 (checked_lem (cell_divides h) 256 l (row_lem h p) q)

entry_fits : ℕ → Bool
entry_fits h = ltb (get_or ccit_crc16_table h 0) (2 ^ 16)

entries_fit : checked entry_fits 256 ≡ true
unfolding entry_fits ccit_crc16_table checked
entries_fit = refl

pub table-lt : (h : ℕ) → h < 256 → get_or ccit_crc16_table h 0 < 2 ^ 16
unfolding entry_fits
table-lt h p = ltb→lt _ _ (checked_lem entry_fits 256 h entries_fit p)

-- A round drops the high byte after it has chosen the entry.
pub crc_round_lem :
    (crc byte : ℕ)
    → crc < 2 ^ 16
    → byte < 256
    → crc_round crc byte
      ≡ bit_xor (crc % 256 * 2 ^ 8) (get_or ccit_crc16_table (bit_xor (crc / 256) byte) 0)
unfolding crc_round
crc_round_lem crc byte p q =
    let i = bit_xor (crc / 256) byte in
    let i_fits : i < 256 = xor-lt 8 (crc / 256) byte (omega arith) q in
    let e = get_or ccit_crc16_table i 0 in
    let e_fits : e < 2 ^ 16 = table-lt i i_fits in
    let low : ℕ = crc % 256 * 2 ^ 8 in
    let low_fits : bit_xor low e < 2 ^ 16 = xor-lt 16 low e (omega arith) e_fits in
    let split : bit_xor (crc / 256 * 2 ^ 16 + low) (0 * 2 ^ 16 + e)
        ≡ bit_xor (crc / 256) 0 * 2 ^ 16 + bit_xor low e =
      xor_fields 16 (crc / 256) low 0 e (omega arith) e_fits in
    let index : bit_and i 0x00ff ≡ i = omega (arith, bit_and_byte i) in
    let whole : crc / 256 * 2 ^ 16 + low ≡ crc * 2 ^ 8 = omega arith in
    let entry : 0 * 2 ^ 16 + e ≡ e = omega arith in
    rw (index, ← whole) (let s = rw entry at split in omega (arith, s))

-- ===== src/Crc/Reference.antt =====
-- `ccit_crc16` of user/utils.c computes the CRC that the polynomial division defines, and the check
-- value behind a message divides out.
use meter_logger.Prelude.{
  ℕ, ◌+◌, ◌*◌, ◌/◌, ◌%◌, ◌^◌, ◌<◌, bit_xor, ◌≡◌, refl, ◌∙◌, List, [], ◌∷◌, ◌++◌, get_or, IsBytes,
  arith,
}
use meter_logger.Prelude.Bits.{xor_fields, xor-zero, xor-lt, xor_self}
use meter_logger.Crc.{ccit_crc16_table, crc_round, ccit_crc16}
use meter_logger.Crc.Polynomial.{divide_bits, crc_bitwise}
use meter_logger.Crc.Table.{divide_bits-table, crc_round_lem}

crc_round-divide_bits :
    (crc byte : ℕ)
    → crc < 2 ^ 16
    → byte < 256
    → crc_round crc byte ≡ divide_bits 8 (bit_xor crc (byte * 2 ^ 8))
crc_round-divide_bits crc byte p q =
    let h = crc / 256 in
    let l = crc % 256 in
    let split : bit_xor (h * 2 ^ 8 + l) (byte * 2 ^ 8 + 0) ≡ bit_xor h byte * 2 ^ 8 + bit_xor l 0 =
      xor_fields 8 h l byte 0 (omega arith) (omega arith) in
    let whole : h * 2 ^ 8 + l ≡ crc = omega arith in
    let high : byte * 2 ^ 8 + 0 ≡ byte * 2 ^ 8 = omega arith in
    let entered : bit_xor crc (byte * 2 ^ 8) ≡ bit_xor h byte * 2 ^ 8 + l =
      rw (whole, high, xor-zero) at split in
    rw (entered, crc_round_lem crc byte p q)
      (rw (divide_bits-table (bit_xor h byte) l (xor-lt 8 h byte (omega arith) q) (omega arith)))

pub crc_round-lt : (crc byte : ℕ) → crc_round crc byte < 2 ^ 16
unfolding crc_round
crc_round-lt crc byte = omega arith

-- For bytes and a 16-bit start value the table-driven loop gives the CRC of the bit-by-bit division
-- by the polynomial x^16 + x^12 + x^5 + 1.
pub ccit_crc16-bitwise :
    (crc : ℕ) (message : List ℕ)
    → crc < 2 ^ 16
    → IsBytes message
    → ccit_crc16 crc message ≡ crc_bitwise crc message
unfolding ccit_crc16 crc_bitwise
ccit_crc16-bitwise crc [] p h = refl
ccit_crc16-bitwise crc (byte ∷ rest) p h =
    rw (← crc_round-divide_bits crc byte p h.0)
      (ccit_crc16-bitwise (crc_round crc byte) rest (crc_round-lt crc byte) h.1)

pub ccit_crc16-append :
    (crc : ℕ) (xs ys : List ℕ) → ccit_crc16 crc (xs ++ ys) ≡ ccit_crc16 (ccit_crc16 crc xs) ys
unfolding ccit_crc16
ccit_crc16-append crc [] ys = refl
ccit_crc16-append crc (x ∷ xs) ys = ccit_crc16-append (crc_round crc x) xs ys

pub ccit_crc16-lt : (crc : ℕ) (message : List ℕ) → crc < 2 ^ 16 → ccit_crc16 crc message < 2 ^ 16
unfolding ccit_crc16
ccit_crc16-lt crc [] p = p
ccit_crc16-lt crc (byte ∷ rest) p = ccit_crc16-lt (crc_round crc byte) rest (crc_round-lt crc byte)

first_entry : get_or ccit_crc16_table 0 0 ≡ 0
unfolding ccit_crc16_table
first_entry = refl

-- The high byte of the remainder, fed in, leaves the low byte at the top.
crc_round-high : (crc : ℕ) → crc < 2 ^ 16 → crc_round crc (crc / 256) ≡ crc % 256 * 2 ^ 8
crc_round-high crc p =
    rw (crc_round_lem crc (crc / 256) p (omega arith), xor_self (crc / 256), first_entry)
      (xor-zero _)

crc_round-low : (l : ℕ) → l < 256 → crc_round (l * 2 ^ 8) l ≡ 0
crc_round-low l p =
    let back : l * 2 ^ 8 / 256 ≡ l = omega arith in
    let last = crc_round-high (l * 2 ^ 8) (omega arith) in (rw back at last) ∙ omega arith

two_rounds : (crc h l : ℕ) → ccit_crc16 crc (h ∷ l ∷ []) ≡ crc_round (crc_round crc h) l
unfolding ccit_crc16
two_rounds crc h l = refl

-- A message followed by its own CRC, high byte first, has the CRC 0.
pub ccit_crc16_residue :
    (crc : ℕ) (message : List ℕ)
    → crc < 2 ^ 16
    → let c = ccit_crc16 crc message in ccit_crc16 crc (message ++ (c / 256 ∷ c % 256 ∷ [])) ≡ 0
ccit_crc16_residue crc message p =
    let c = ccit_crc16 crc message in
    ccit_crc16-append crc message _
    ∙ two_rounds c (c / 256) (c % 256)
    ∙ rw (crc_round-high c (ccit_crc16-lt crc message p)) (crc_round-low (c % 256) (omega arith))

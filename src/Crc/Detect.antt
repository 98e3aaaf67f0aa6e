-- ===== src/Crc/Detect.antt =====
-- What the CRC of user/utils.c detects: a change of the start value, and a change of one byte.
use meter_logger.Prelude.{
  ℕ, ◌+◌, ◌*◌, ◌/◌, ◌%◌, ◌^◌, ◌<◌, bit_xor, ◌≡◌, ◌≢◌, refl, sym, ap, ◌∙◌, Bool, true, List, [], ◌∷◌,
  ◌++◌, ◌==◌, ==_iff, get_or, IsByte, IsBytes, arith,
}
use meter_logger.Prelude.Bits.{
  checked, checked_lem, xor_fields, xor-lt, xor_left_injective, xor_right_injective, zero-xor,
}
use meter_logger.Crc.{ccit_crc16_table, crc_round, ccit_crc16}
use meter_logger.Crc.Table.{crc_round_lem, table-lt}
use meter_logger.Crc.Reference.{crc_round-lt, ccit_crc16-append, ccit_crc16-lt}

-- The index of the entry with a given low byte.
find_low : ℕ → List ℕ → ℕ → ℕ
find_low x [] i = i
find_low x (e ∷ es) i = elim (e % 256 == x) [ true ↦ i | _ ↦ find_low x es (i + 1) ]

found : ℕ → Bool
found i = find_low (get_or ccit_crc16_table i 0 % 256) ccit_crc16_table 0 == i

all_found : checked found 256 ≡ true
unfolding found find_low ccit_crc16_table checked
all_found = refl

find_low_lem :
    (i : ℕ) → i < 256 → find_low (get_or ccit_crc16_table i 0 % 256) ccit_crc16_table 0 ≡ i
unfolding found
find_low_lem i p = (==_iff _ i).0 (checked_lem found 256 i all_found p)

-- No two entries have the same low byte.
low_injective :
    (i j : ℕ)
    → i < 256
    → j < 256
    → get_or ccit_crc16_table i 0 % 256 ≡ get_or ccit_crc16_table j 0 % 256
    → i ≡ j
low_injective i j p q e =
    sym (find_low_lem i p) ∙ ap (λ x. find_low x ccit_crc16_table 0) e ∙ find_low_lem j q

low_of_xor : (l e : ℕ) → l < 256 → e < 2 ^ 16 → bit_xor (l * 2 ^ 8) e % 256 ≡ e % 256
low_of_xor l e p q =
    let split : bit_xor (l * 2 ^ 8 + 0) (e / 256 * 2 ^ 8 + e % 256)
        ≡ bit_xor l (e / 256) * 2 ^ 8 + bit_xor 0 (e % 256) =
      xor_fields 8 l 0 (e / 256) (e % 256) (omega arith) (omega arith) in
    let left : l * 2 ^ 8 + 0 ≡ l * 2 ^ 8 = omega arith in
    let right : e / 256 * 2 ^ 8 + e % 256 ≡ e = omega arith in
    let whole = rw (left, right, zero-xor) at split in omega (arith, whole)

-- A round's result fixes the entry that was used, and the low byte that was kept.
crc_round_parts :
    (c d x y : ℕ)
    → c < 2 ^ 16
    → d < 2 ^ 16
    → x < 256
    → y < 256
    → crc_round c x ≡ crc_round d y
    → (bit_xor (c / 256) x ≡ bit_xor (d / 256) y) × (c % 256 ≡ d % 256)
crc_round_parts c d x y pc pd px py h =
    let i = bit_xor (c / 256) x in
    let j = bit_xor (d / 256) y in
    let i_fits : i < 256 = xor-lt 8 (c / 256) x (omega arith) px in
    let j_fits : j < 256 = xor-lt 8 (d / 256) y (omega arith) py in
    let e = get_or ccit_crc16_table i 0 in
    let f = get_or ccit_crc16_table j 0 in
    let same : bit_xor (c % 256 * 2 ^ 8) e ≡ bit_xor (d % 256 * 2 ^ 8) f =
      sym (crc_round_lem c x pc px) ∙ h ∙ crc_round_lem d y pd py in
    let index : i ≡ j = low_injective i j i_fits j_fits (
      omega (
        arith,
        same,
        low_of_xor (c % 256) e (omega arith) (table-lt i i_fits),
        low_of_xor (d % 256) f (omega arith) (table-lt j j_fits),
      )) in
    let entry : e ≡ f = ap (λ k. get_or ccit_crc16_table k 0) index in
    let kept : c % 256 * 2 ^ 8 ≡ d % 256 * 2 ^ 8 =
      xor_right_injective (c % 256 * 2 ^ 8) (d % 256 * 2 ^ 8) f
        (ap (bit_xor (c % 256 * 2 ^ 8)) (sym entry) ∙ same) in
    (index, omega (arith, kept))

crc_round_state_injective :
    (c d x : ℕ) → c < 2 ^ 16 → d < 2 ^ 16 → x < 256 → crc_round c x ≡ crc_round d x → c ≡ d
crc_round_state_injective c d x pc pd px h =
    let parts = crc_round_parts c d x x pc pd px px h in
    omega (arith, parts.1, xor_right_injective (c / 256) (d / 256) x parts.0)

crc_round_byte_injective :
    (c x y : ℕ) → c < 2 ^ 16 → x < 256 → y < 256 → crc_round c x ≡ crc_round c y → x ≡ y
crc_round_byte_injective c x y pc px py h =
    xor_left_injective (c / 256) x y (crc_round_parts c c x y pc pc px py h).0

-- The loop never merges two states.
pub ccit_crc16_injective :
    (c d : ℕ) (message : List ℕ)
    → c < 2 ^ 16
    → d < 2 ^ 16
    → IsBytes message
    → ccit_crc16 c message ≡ ccit_crc16 d message
    → c ≡ d
unfolding ccit_crc16
ccit_crc16_injective c d [] pc pd b h = h
ccit_crc16_injective c d (x ∷ rest) pc pd b h = crc_round_state_injective c d x pc pd b.0 (
    ccit_crc16_injective (crc_round c x) (crc_round d x) rest (crc_round-lt c x) (crc_round-lt d x)
      b.1 h)

two_parts :
    (c x : ℕ) (before after : List ℕ)
    → ccit_crc16 c (before ++ x ∷ after) ≡ ccit_crc16 (crc_round (ccit_crc16 c before) x) after
unfolding ccit_crc16
two_parts c x before after = ccit_crc16-append c before (x ∷ after)

-- Two messages that differ in exactly one byte have different CRCs.
pub ccit_crc16_detects :
    (c x y : ℕ) (before after : List ℕ)
    → c < 2 ^ 16
    → IsByte x
    → IsByte y
    → IsBytes after
    → x ≢ y
    → ccit_crc16 c (before ++ x ∷ after) ≢ ccit_crc16 c (before ++ y ∷ after)
ccit_crc16_detects c x y before after pc px py b ne h =
    let s = ccit_crc16 c before in
    ne (
      crc_round_byte_injective s x y (ccit_crc16-lt c before pc) px py (
        ccit_crc16_injective (crc_round s x) (crc_round s y) after (crc_round-lt s x)
          (crc_round-lt s y) b (sym (two_parts c x before after) ∙ h ∙ two_parts c y before after)))

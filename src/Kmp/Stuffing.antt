-- ===== src/Kmp/Stuffing.antt =====
-- Byte stuffing of user/kamstrup/kmp.c: what a stuffed frame holds, and that unstuffing undoes it.
use meter_logger.Prelude.{
  ℕ, ◌*◌, ◌≤◌, ◌<◌, bit_xor, ◌≡◌, ◌≢◌, refl, Bool, true, false, inl, inr, List, [], ◌∷◌, ◌++◌,
  if◌then◌else◌, Bool-cases, length, All, IsBytes, arith,
}
use meter_logger.Prelude.Bits.{checked, checked_lem, xor_cancel}
use meter_logger.Kmp.Frame.{is_reserved, stuff_bytes, unstuff_bytes}

-- None of the bytes that mark a frame: start, 0x40, stop and acknowledge.
abbrev pub Unmarked : ℕ → Type 0
Unmarked b = (b ≢ 0x80) × (b ≢ 0x40) × (b ≢ 0x0d) × (b ≢ 0x06)

-- The complement of a reserved byte is not reserved.
complement_free : ℕ → Bool
complement_free b =
    if is_reserved b then (if is_reserved (bit_xor b 0xff) then false else true) else true

all_free : checked complement_free 256 ≡ true
unfolding checked complement_free is_reserved
all_free = refl

reserved_lem : (b : ℕ) → b < 256 → is_reserved b ≡ true → is_reserved (bit_xor b 0xff) ≡ false
unfolding complement_free
reserved_lem b p r = ground (arith, checked_lem complement_free 256 b all_free p)

Unmarked-of_free : (b : ℕ) → is_reserved b ≡ false → Unmarked b × (b ≢ 0x1b)
unfolding is_reserved
Unmarked-of_free b h = ground arith

stuff_reserved :
    (b : ℕ) (rest : List ℕ)
    → is_reserved b ≡ true
    → stuff_bytes (b ∷ rest) ≡ 0x1b ∷ bit_xor b 0xff ∷ stuff_bytes rest
unfolding stuff_bytes
stuff_reserved b rest h = rw h

stuff_free :
    (b : ℕ) (rest : List ℕ) → is_reserved b ≡ false → stuff_bytes (b ∷ rest) ≡ b ∷ stuff_bytes rest
unfolding stuff_bytes
stuff_free b rest h = rw h

escape_Unmarked : Unmarked 0x1b
escape_Unmarked = omega arith

-- Stuffed bytes hold no start byte, no stop byte, no acknowledge and no 0x40, and stay bytes.
pub stuff_bytes-Unmarked : (xs : List ℕ) → IsBytes xs → All Unmarked (stuff_bytes xs)
stuff_bytes-Unmarked [] h = unfold stuff_bytes in tt
stuff_bytes-Unmarked (b ∷ rest) h = elim (Bool-cases (is_reserved b)) [
  | inl r ↦ rw (stuff_reserved b rest r) (
    escape_Unmarked,
    ((Unmarked-of_free (bit_xor b 0xff) (reserved_lem b h.0 r)).0, stuff_bytes-Unmarked rest h.1),
  )
  | inr f ↦ rw (stuff_free b rest f) ((Unmarked-of_free b f).0, stuff_bytes-Unmarked rest h.1)
]

-- At most two bytes for each.
pub length-stuff_bytes : (xs : List ℕ) → length (stuff_bytes xs) ≤ 2 * length xs
unfolding stuff_bytes
length-stuff_bytes [] = omega arith
length-stuff_bytes (b ∷ rest) = ground (arith, length-stuff_bytes rest)

pub length-le-stuff_bytes : (xs : List ℕ) → length xs ≤ length (stuff_bytes xs)
unfolding stuff_bytes
length-le-stuff_bytes [] = omega arith
length-le-stuff_bytes (b ∷ rest) = ground (arith, length-le-stuff_bytes rest)

pub unstuff_plain :
    (behind b : ℕ) (rest : List ℕ)
    → b ≢ 0x1b
    → unstuff_bytes behind (b ∷ rest) ≡ b ∷ unstuff_bytes behind rest
unfolding unstuff_bytes
unstuff_plain behind b [] h = ground arith
unstuff_plain behind b (c ∷ rest) h = ground arith

pub unstuff_escape :
    (behind c : ℕ) (rest : List ℕ)
    → unstuff_bytes behind (0x1b ∷ c ∷ rest) ≡ bit_xor c 0xff ∷ unstuff_bytes behind rest
unfolding unstuff_bytes
unstuff_escape behind c rest = refl

-- Unstuffing gives back the bytes that were stuffed, and goes on with what follows them.
pub unstuff-stuff :
    (behind : ℕ) (xs rest : List ℕ)
    → unstuff_bytes behind (stuff_bytes xs ++ rest) ≡ xs ++ unstuff_bytes behind rest
unstuff-stuff behind [] rest = unfold stuff_bytes in refl
unstuff-stuff behind (b ∷ xs) rest = elim (Bool-cases (is_reserved b)) [
  | inl r ↦ rw (
    stuff_reserved b xs r,
    unstuff_escape behind (bit_xor b 0xff),
    xor_cancel b 0xff,
    unstuff-stuff behind xs rest,
  )
  | inr f ↦ rw (
    stuff_free b xs f,
    unstuff_plain behind b (stuff_bytes xs ++ rest) (Unmarked-of_free b f).1,
    unstuff-stuff behind xs rest,
  )
]

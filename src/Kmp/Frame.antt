-- ===== src/Kmp/Frame.antt =====
-- user/kamstrup/kmp.c: the frame buffer, byte stuffing and `kmp_crc16`. The globals `kmp_frame`,
-- `kmp_frame_length` and `kmp_data_length` are a record; the frame is the array behind the pointer.
use meter_logger.Prelude.{
  ℕ, ◌+◌, ◌-◌, bit_xor, Bool, ◌&&◌, ◌||◌, List, [], ◌∷◌, if◌then◌else◌, ltb, leb, ◌==◌, length,
  get_or, take, drop, copy_to,
}
use meter_logger.Crc.{ccit_crc16}

-- KMP_FRAME_L
abbrev pub frame_l : ℕ
frame_l = 1024

-- KMP_START_BYTE_IDX, KMP_DST_IDX, KMP_CID_IDX, KMP_DATA_IDX
abbrev pub start_byte_idx : ℕ
start_byte_idx = 0

abbrev pub dst_idx : ℕ
dst_idx = 1

abbrev pub cid_idx : ℕ
cid_idx = 2

abbrev pub data_idx : ℕ
data_idx = 3

pub record Kmp : Type 0 where
  pub frame : List ℕ
  pub frame_length : ℕ
  pub data_length : ℕ

-- The bytes that `kmp_byte_stuff` escapes: start, stop, acknowledge, and the escape itself.
unfoldable pub is_reserved : ℕ → Bool
is_reserved b = b == 0x80 || b == 0x40 || b == 0x0d || b == 0x06 || b == 0x1b

-- The loop of `kmp_byte_stuff` over `kmp_frame[KMP_DST_IDX..kmp_frame_length)`: what it writes to
-- `stuffed_data[0..j)`.
unfoldable pub stuff_bytes : List ℕ → List ℕ
unfolding is_reserved
stuff_bytes [] = []
stuff_bytes (b ∷ rest) =
    let out = stuff_bytes rest in if is_reserved b then 0x1b ∷ bit_xor b 0xff ∷ out else b ∷ out

-- `kmp_frame[KMP_DST_IDX..kmp_frame_length)`
abbrev pub payload : Kmp → List ℕ
payload k = take (k.frame_length - dst_idx) (drop dst_idx k.frame)

-- The end of both functions: copy back what fits, and set the lengths.
unfoldable pub copy_back : Kmp → List ℕ → Kmp
copy_back k out =
    let j = length out in
    if leb j (frame_l - dst_idx) && ltb 0 j
    then record { frame = copy_to k.frame dst_idx out; frame_length = j + dst_idx; data_length = j }
    else k

unfoldable pub kmp_byte_stuff : Kmp → Kmp
unfolding stuff_bytes copy_back
kmp_byte_stuff k = copy_back k (stuff_bytes (payload k))

-- The loop of `kmp_byte_unstuff`. An escape as the last byte of the frame makes it read the byte
-- behind the frame, which is `behind`.
unfoldable pub unstuff_bytes : ℕ → List ℕ → List ℕ
unstuff_bytes behind [] = []
unstuff_bytes behind (b ∷ []) = if b == 0x1b then bit_xor behind 0xff ∷ [] else b ∷ []
unstuff_bytes behind (b ∷ c ∷ rest) =
    let escaped = bit_xor c 0xff ∷ unstuff_bytes behind rest in
    let plain = b ∷ unstuff_bytes behind (c ∷ rest) in if b == 0x1b then escaped else plain

unfoldable pub kmp_byte_unstuff : Kmp → Kmp
unfolding unstuff_bytes copy_back
kmp_byte_unstuff k = copy_back k (unstuff_bytes (get_or k.frame k.frame_length 0) (payload k))

-- `ccit_crc16(0x0000, kmp_frame + KMP_DST_IDX, kmp_data_length)`
unfoldable pub kmp_crc16 : Kmp → ℕ
unfolding ccit_crc16
kmp_crc16 k = ccit_crc16 0x0000 (take k.data_length (drop dst_idx k.frame))

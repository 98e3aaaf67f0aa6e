-- ===== src/Kmp/Meter.antt =====
-- The replies of a meter, as `kmp_decode_frame` of user/kamstrup/kmp.c reads them: the registers, the
-- serial number, a damaged byte, and a reply with more registers than the response has room for.
use meter_logger.Prelude.{
  subst, ℕ, suc, ◌+◌, ◌-◌, ◌*◌, ◌/◌, ◌%◌, ◌^◌, ◌≤◌, ◌<◌, ◌≡◌, ◌≢◌, refl, ap, ◌∙◌, some, none, List,
  [], ◌∷◌, ◌++◌, length, get_or, copy_to, All, IsByte, IsBytes, arith,
}
use meter_logger.Crc.{ccit_crc16}
use meter_logger.Crc.Reference.{ccit_crc16-lt}
use meter_logger.Crc.Detect.{ccit_crc16_detects}
use meter_logger.Kmp.Frame.{Kmp, frame_l}
use meter_logger.Kmp.Response.{
  Register, no_response, decoded, crc_error, byte_at, u32_at, with_registers, read_registers,
  decode_application, kmp_decode_frame,
}
use meter_logger.Kmp.Contents.{Holds}
use meter_logger.Kmp.Wire.{wire, crc_bytes}
use meter_logger.Kmp.Decoding.{unstuffed, data_length_lem}
use meter_logger.Kmp.Registers.{
  Fits, Stands, reply_bytes, read_registers_lem, read_registers_overrun,
}
use meter_logger.Kmp.Encoding.{encoded, IsWord, IsWord-Fits, encoded-nine}
use meter_logger.Kmp.Replies.{buffer, accepted, application_byte, kmp_decode_frame_lem}

-- A reply to a register request as the meter encodes it.
abbrev pub encoded_reply : ℕ → List Register → List ℕ
encoded_reply dst rs = dst ∷ 0x10 ∷ encoded rs

-- A reply to a register request: destination, command, registers of nine bytes.
abbrev pub register_reply : ℕ → List Register → List ℕ
register_reply dst rs = dst ∷ 0x10 ∷ reply_bytes rs

length-reply_bytes : (rs : List Register) → length (reply_bytes rs) ≡ 9 * length rs
length-reply_bytes [] = refl
length-reply_bytes (r ∷ rest) = omega (arith, length-reply_bytes rest)

registers_steps :
    (k : Kmp)
    → byte_at k.frame 2 ≡ 0x10
    → 2 < k.data_length
    → decode_application k
      ≡ with_registers k
          (read_registers ((k.data_length - 2) / 9) 0 k.frame no_response.register_list)
unfolding decode_application
registers_steps k cid long = ground arith

module _ (d : ℕ) (frame : List ℕ) (n start dst : ℕ) (rs : List Register)
    (h : Holds
      (buffer d frame n)
      (wire start (register_reply dst rs ++ crc_bytes (register_reply dst rs))))
    (fits : length rs ≤ 113) (some_registers : 1 ≤ length rs) where
  abbrev body : List ℕ
  body = register_reply dst rs

  abbrev k : Kmp
  k = unstuffed (buffer d frame n)

  size : length body ≡ 9 * length rs + 2
  size = omega (arith, length-reply_bytes rs)

  data_size : k.data_length ≡ 9 * length rs + 2
  data_size =
      data_length_lem (buffer d frame n) body (ccit_crc16 0 body / 256) (ccit_crc16 0 body % 256) h
        (omega (arith, size))
      ∙ size

  byte_of_body : (i : ℕ) → i < length body → byte_at k.frame (i + 1) ≡ get_or body i 0
  byte_of_body = application_byte d frame n start body h (omega (arith, size))

  rounds : (k.data_length - 2) / 9 ≡ length rs
  rounds = omega (arith, data_size)

  standing : Stands k.frame (9 * 0 + 3) (reply_bytes rs)
  standing p j e q =
      let at : p ≡ suc (suc j) + 1 = omega arith in rw at (byte_of_body (suc (suc j)) (omega arith))

  reads :
      kmp_decode_frame d frame n
      ≡ with_registers k (read_registers (length rs) 0 k.frame no_response.register_list)
  reads =
      accepted d frame n start body h (omega (arith, size)) (omega (arith, size))
      ∙ registers_steps k (byte_of_body 1 (omega (arith, size))) (omega (arith, data_size))
      ∙ ap (λ m. with_registers k (read_registers m 0 k.frame no_response.register_list)) rounds

-- A reply with one to eight registers of nine bytes each.
pub decode_nine :
    (d : ℕ) (frame : List ℕ) (n start dst : ℕ) (rs : List Register)
    → Holds
        (buffer d frame n)
        (wire start (register_reply dst rs ++ crc_bytes (register_reply dst rs)))
    → All Fits rs
    → 1 ≤ length rs
    → length rs ≤ 8
    → kmp_decode_frame d frame n
      ≡ some (
        decoded,
        record no_response { register_list = copy_to no_response.register_list 0 rs },
        unstuffed (buffer d frame n),
      )
decode_nine d frame n start dst rs h f p q =
    let k = unstuffed (buffer d frame n) in
    reads d frame n start dst rs h (omega arith) p
    ∙ ap (with_registers k) (
        read_registers_lem rs 0 k.frame no_response.register_list f
          (standing d frame n start dst rs h (omega arith) p) (omega arith))
    ∙ unfold with_registers in refl

-- A reply with one to eight registers, each with a value of four bytes, encoded as the meter does, with its CRC and
-- stuffed as on the wire, is decoded with the return value 1 into exactly these registers, in order, at the start of
-- the list; all else in the response is zero.
pub kmp_decode_frame_registers :
    (d : ℕ) (frame : List ℕ) (n start dst : ℕ) (rs : List Register)
    → Holds
        (buffer d frame n)
        (wire start (encoded_reply dst rs ++ crc_bytes (encoded_reply dst rs)))
    → All IsWord rs
    → 1 ≤ length rs
    → length rs ≤ 8
    → kmp_decode_frame d frame n
      ≡ some (
        decoded,
        record no_response { register_list = copy_to no_response.register_list 0 rs },
        unstuffed (buffer d frame n),
      )
kmp_decode_frame_registers d frame n start dst rs h f p q =
    let nine : Holds (buffer d frame n)
        (wire start (register_reply dst rs ++ crc_bytes (register_reply dst rs))) =
      subst
        (λ b.
          Holds (buffer d frame n) (wire start ((dst ∷ 0x10 ∷ b) ++ crc_bytes (dst ∷ 0x10 ∷ b))))
        (encoded-nine rs f) h in
    decode_nine d frame n start dst rs nine (IsWord-Fits rs f) p q

-- A reply with nine or more registers and a fitting CRC makes the decoder write past the eight
-- registers of the response.
pub kmp_decode_frame_overrun :
    (d : ℕ) (frame : List ℕ) (n start dst : ℕ) (rs : List Register)
    → Holds
        (buffer d frame n)
        (wire start (register_reply dst rs ++ crc_bytes (register_reply dst rs)))
    → 9 ≤ length rs
    → length rs ≤ 113
    → kmp_decode_frame d frame n ≡ none
kmp_decode_frame_overrun d frame n start dst rs h p q =
    let k = unstuffed (buffer d frame n) in
    reads d frame n start dst rs h q (omega arith)
    ∙ ap (with_registers k) (
        read_registers_overrun (length rs) 0 k.frame no_response.register_list (omega arith)
          (omega arith))
    ∙ unfold with_registers in refl

serial_steps :
    (k : Kmp)
    → byte_at k.frame 2 ≡ 0x02
    → decode_application k ≡ some (decoded, record no_response { serial = u32_at k.frame 3 }, k)
unfolding decode_application
serial_steps k cid = ground arith

-- A reply with a serial number of 32 bits, with its CRC, is decoded into that number.
pub kmp_decode_frame_serial :
    (d : ℕ) (frame : List ℕ) (n start dst serial : ℕ)
    → let body =
        dst
        ∷ 0x02
        ∷ serial / 2 ^ 24
        ∷ serial / 2 ^ 16 % 2 ^ 8
        ∷ serial / 2 ^ 8 % 2 ^ 8
        ∷ serial % 2 ^ 8
        ∷ [] in
      Holds (buffer d frame n) (wire start (body ++ crc_bytes body))
      → serial < 2 ^ 32
      → kmp_decode_frame d frame n
        ≡ some (decoded, record no_response { serial = serial }, unstuffed (buffer d frame n))
kmp_decode_frame_serial d frame n start dst serial h p =
    let k = unstuffed (buffer d frame n) in
    let body =
      dst
      ∷ 0x02
      ∷ serial / 2 ^ 24
      ∷ serial / 2 ^ 16 % 2 ^ 8
      ∷ serial / 2 ^ 8 % 2 ^ 8
      ∷ serial % 2 ^ 8
      ∷ [] in
    let byte = application_byte d frame n start body h (omega arith) in
    let number : u32_at k.frame 3 ≡ serial = omega (
      arith,
      byte 2 (omega arith),
      byte 3 (omega arith),
      byte 4 (omega arith),
      byte 5 (omega arith),
    ) in
    accepted d frame n start body h (omega arith) (omega arith)
    ∙ serial_steps k (byte 1 (omega arith))
    ∙ ap (λ s. some (decoded, record no_response { serial = s }, k)) number

-- A frame whose body differs in one byte from the body that its CRC was made for is refused, with
-- the return value -1 and an empty response.
pub kmp_decode_frame_damaged :
    (d : ℕ) (frame : List ℕ) (n start x y : ℕ) (before after : List ℕ)
    → Holds
        (buffer d frame n)
        (wire start ((before ++ y ∷ after) ++ crc_bytes (before ++ x ∷ after)))
    → IsByte x
    → IsByte y
    → IsBytes after
    → x ≢ y
    → 2 ≤ length (before ++ y ∷ after)
    → length (before ++ y ∷ after) + 3 < frame_l
    → kmp_decode_frame d frame n ≡ some (crc_error, no_response, unstuffed (buffer d frame n))
kmp_decode_frame_damaged d frame n start x y before after h px py pa ne long fits =
    let c = ccit_crc16 0 (before ++ x ∷ after) in
    let c_fits : c < 2 ^ 16 = ccit_crc16-lt 0 (before ++ x ∷ after) (omega arith) in
    let different = ccit_crc16_detects 0 x y before after (omega arith) px py pa ne in
    kmp_decode_frame_lem d frame n start (before ++ y ∷ after) (c / 256) (c % 256) h long fits
      (omega arith) (omega arith)
    ∙ ground (arith, different)

-- ===== src/Kmp/Decoding.antt =====
-- The decoder of user/kamstrup/kmp.c on frames of the protocol: it recovers the body, and takes it
-- exactly when the CRC fits.
use meter_logger.Prelude.{
  ℕ, ◌+◌, ◌-◌, ◌*◌, ◌%◌, ◌^◌, ◌<◌, bit_or, ◌≡◌, refl, sym, ap, ◌∙◌, List, [], ◌∷◌, ◌++◌,
  append_assoc, some, if◌then◌else◌, ◌==◌, length, length-append, get_or, get_or-take,
  get_or-append_right, arith,
}
use meter_logger.Prelude.Bits.{bit_or_fields}
use meter_logger.Crc.{ccit_crc16}
use meter_logger.Kmp.Frame.{Kmp, frame_l, stuff_bytes, unstuff_bytes, kmp_byte_unstuff, kmp_crc16}
use meter_logger.Kmp.Response.{crc_error, no_response, byte_at, decode_application, decode_stopped}
use meter_logger.Kmp.Contents.{Holds, kmp_crc16_lem, kmp_byte_unstuff_lem}
use meter_logger.Kmp.Stuffing.{unstuff-stuff}
use meter_logger.Kmp.Wire.{wire}

-- A byte of the buffer, by the content.
pub byte_lem :
    (k : Kmp) (i : ℕ) {c : List ℕ} → Holds k c → i < length c → byte_at k.frame i ≡ get_or c i 0
byte_lem k i {c} h p =
    sym (get_or-take k.frame k.frame_length i 0 (omega (arith, h.size)))
    ∙ ap (λ t. get_or t i 0) h.bytes

-- The state in which the CRC of a frame is tested.
abbrev pub unstuffed : Kmp → Kmp
unstuffed k =
    let u = kmp_byte_unstuff k in record u { data_length = (u.frame_length + 2 ^ 32 - 4) % 2 ^ 32 }

-- A body with a trailer of two bytes.
abbrev pub framed : List ℕ → ℕ → ℕ → List ℕ
framed body high low = body ++ high ∷ low ∷ []

length-framed : (body : List ℕ) (high low : ℕ) → length (framed body high low) ≡ length body + 2
length-framed body high low = length-append body (high ∷ low ∷ [])

unstuff_wire :
    (behind : ℕ) (content : List ℕ)
    → unstuff_bytes behind (stuff_bytes content ++ 0x0d ∷ []) ≡ content ++ 0x0d ∷ []
unstuff_wire behind content =
    unstuff-stuff behind content (0x0d ∷ []) ∙ ap (λ t. content ++ t) (unfold unstuff_bytes in refl)

pub unstuffed-Holds :
    (k : Kmp) {x : ℕ} (content : List ℕ)
    → Holds k (wire x content)
    → length content + 1 < frame_l
    → Holds (unstuffed k) (x ∷ (content ++ 0x0d ∷ []))
unstuffed-Holds k content h fits =
    let size = length-append content (0x0d ∷ []) in
    let u =
      kmp_byte_unstuff_lem k (stuff_bytes content ++ 0x0d ∷ []) (content ++ 0x0d ∷ []) h
        (λ behind. unstuff_wire behind content) (omega (arith, size)) (omega (arith, size)) in
    record { room = u.room; size = u.size; bytes = u.bytes }

-- The CRC test, as the code makes it.
crc_of_frame : Kmp → ℕ
crc_of_frame u =
    bit_or (byte_at u.frame (u.frame_length - 2)) (byte_at u.frame (u.frame_length - 3) * 2 ^ 8)
    % 2 ^ 16

decode_steps :
    (k : Kmp)
    → decode_stopped k ≡ (
        if crc_of_frame (unstuffed k) == kmp_crc16 (unstuffed k)
        then decode_application (unstuffed k)
        else some (crc_error, no_response, unstuffed k))
unfolding decode_stopped crc_of_frame
decode_steps k = refl

module _ (k : Kmp) {x : ℕ} (body : List ℕ) (high low : ℕ)
    (h : Holds k (wire x (framed body high low))) (fits : length body + 3 < frame_l) where
  abbrev recovered : List ℕ
  recovered = x ∷ (body ++ high ∷ low ∷ 0x0d ∷ [])

  -- After unstuffing the buffer holds the body, the CRC and the stop byte.
  pub recovered-Holds : Holds (unstuffed k) recovered
  recovered-Holds =
      rw append_assoc at
        (unstuffed-Holds k (framed body high low) h (omega (arith, length-framed body high low)))

  length-recovered : length recovered ≡ length body + 4
  length-recovered = omega (arith, length-append body (high ∷ low ∷ 0x0d ∷ []))

  pub data_length_lem : (unstuffed k).data_length ≡ length body
  data_length_lem = omega (arith, recovered-Holds.size, length-recovered)

  crc_lem : kmp_crc16 (unstuffed k) ≡ ccit_crc16 0 body
  crc_lem =
      kmp_crc16_lem (unstuffed k) body (high ∷ low ∷ 0x0d ∷ []) recovered-Holds data_length_lem

  tail_byte :
      (i j : ℕ)
      → i ≡ length body + 1 + j
      → j < 3
      → byte_at (unstuffed k).frame i ≡ get_or (high ∷ low ∷ 0x0d ∷ []) j 0
  tail_byte i j e p =
      byte_lem (unstuffed k) i recovered-Holds (omega (arith, length-recovered))
      ∙ get_or-append_right (x ∷ body) (high ∷ low ∷ 0x0d ∷ []) i j 0 (omega arith)

  trailer_lem : high < 256 → low < 256 → crc_of_frame (unstuffed k) ≡ high * 2 ^ 8 + low
  unfolding crc_of_frame
  trailer_lem p q =
      let size : (unstuffed k).frame_length ≡ length body + 4 =
        omega (arith, recovered-Holds.size, length-recovered) in
      rw
        (
          tail_byte ((unstuffed k).frame_length - 2) 1 (omega (arith, size)) (omega arith),
          tail_byte ((unstuffed k).frame_length - 3) 0 (omega (arith, size)) (omega arith),
          bit_or_fields 8 high low q,
        )
        (omega arith)

  -- A stopped frame is decoded further exactly when its last two bytes are the CRC of its body.
  pub decode_stopped_lem :
      high < 256
      → low < 256
      → decode_stopped k ≡ (
          if high * 2 ^ 8 + low == ccit_crc16 0 body
          then decode_application (unstuffed k)
          else some (crc_error, no_response, unstuffed k))
  decode_stopped_lem p q = rw (decode_steps k, trailer_lem p q, crc_lem)

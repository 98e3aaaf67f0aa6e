-- ===== src/Kmp/Replies.antt =====
-- `kmp_decode_frame` of user/kamstrup/kmp.c on the replies of a meter.
use meter_logger.Prelude.{
  ℕ, ◌+◌, ◌-◌, ◌*◌, ◌/◌, ◌%◌, ◌^◌, ◌≤◌, ◌<◌, ◌≡◌, ◌∙◌, some, List, [], ◌∷◌, ◌++◌, if◌then◌else◌,
  ◌==◌, length, length-append, get_or, get_or-append_left, get_or-append_right, arith,
}
use meter_logger.Crc.{ccit_crc16}
use meter_logger.Crc.Reference.{ccit_crc16-lt}
use meter_logger.Kmp.Frame.{Kmp, frame_l, stuff_bytes}
use meter_logger.Kmp.Response.{
  no_response, crc_error, byte_at, decode_application, decode_stopped, kmp_decode_frame,
}
use meter_logger.Kmp.Contents.{Holds}
use meter_logger.Kmp.Stuffing.{length-le-stuff_bytes}
use meter_logger.Kmp.Wire.{wire, crc_bytes}
use meter_logger.Kmp.Decoding.{framed, byte_lem, unstuffed, recovered-Holds, decode_stopped_lem}

-- The globals when the decoder has taken over its arguments.
abbrev pub buffer : ℕ → List ℕ → ℕ → Kmp
buffer data_length frame n = record { frame = frame; frame_length = n; data_length = data_length }

stop_byte :
    (k : Kmp) {x : ℕ} (content : List ℕ)
    → Holds k (wire x content)
    → 4 ≤ length content
    → (6 ≤ k.frame_length) × (byte_at k.frame (k.frame_length - 1) ≡ 0x0d)
stop_byte k {x} content h long =
    let s = length-append (stuff_bytes content) (0x0d ∷ []) in
    let l = length-le-stuff_bytes content in
    (
      omega (arith, h.size, s, l),
      byte_lem k (k.frame_length - 1) h (omega (arith, h.size, s, l))
          ∙ get_or-append_right (x ∷ stuff_bytes content) (0x0d ∷ []) (k.frame_length - 1) 0 0
              (omega (arith, h.size, s, l)),
    )

enters :
    (d : ℕ) (frame : List ℕ) (n : ℕ)
    → 6 ≤ n
    → byte_at frame (n - 1) ≡ 0x0d
    → kmp_decode_frame d frame n ≡ decode_stopped (buffer d frame n)
unfolding kmp_decode_frame
enters d frame n p e = ground arith

module _ (d : ℕ) (frame : List ℕ) (n start : ℕ) (body : List ℕ) where
  -- A frame is decoded further exactly when its last two bytes are the CRC of the bytes before
  -- them, and refused with -1 otherwise.
  pub kmp_decode_frame_lem :
      (high low : ℕ)
      → Holds (buffer d frame n) (wire start (framed body high low))
      → 2 ≤ length body
      → length body + 3 < frame_l
      → high < 256
      → low < 256
      → kmp_decode_frame d frame n ≡ (
          if high * 2 ^ 8 + low == ccit_crc16 0 body
          then decode_application (unstuffed (buffer d frame n))
          else some (crc_error, no_response, unstuffed (buffer d frame n)))
  kmp_decode_frame_lem high low h long fits p q =
      let s =
        stop_byte (buffer d frame n) (framed body high low) h
          (omega (arith, length-append body (high ∷ low ∷ []))) in
      enters d frame n s.0 s.1 ∙ decode_stopped_lem (buffer d frame n) body high low h fits p q

  pub accepted :
      Holds (buffer d frame n) (wire start (body ++ crc_bytes body))
      → 2 ≤ length body
      → length body + 3 < frame_l
      → kmp_decode_frame d frame n ≡ decode_application (unstuffed (buffer d frame n))
  accepted h long fits =
      let c = ccit_crc16 0 body in
      let c_fits : c < 2 ^ 16 = ccit_crc16-lt 0 body (omega arith) in
      kmp_decode_frame_lem (c / 256) (c % 256) h long fits (omega arith) (omega arith)
      ∙ ground arith

  -- A byte of an accepted reply, in the buffer that the application layer reads.
  pub application_byte :
      Holds (buffer d frame n) (wire start (body ++ crc_bytes body))
      → length body + 3 < frame_l
      → (i : ℕ) → i < length body
      → byte_at (unstuffed (buffer d frame n)).frame (i + 1) ≡ get_or body i 0
  application_byte h fits i p =
      let high = ccit_crc16 0 body / 256 in
      let low = ccit_crc16 0 body % 256 in
      let r = recovered-Holds (buffer d frame n) body high low h fits in
      let size = length-append body (high ∷ low ∷ 0x0d ∷ []) in
      byte_lem (unstuffed (buffer d frame n)) (i + 1) r (omega (arith, size))
      ∙ get_or-append_right (start ∷ []) (body ++ high ∷ low ∷ 0x0d ∷ []) (i + 1) i 0 (omega arith)
      ∙ get_or-append_left body (high ∷ low ∷ 0x0d ∷ []) i 0 p

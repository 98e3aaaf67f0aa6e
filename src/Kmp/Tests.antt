-- ===== src/Kmp/Tests.antt =====
-- Runs of the code of user/kamstrup/kmp.c, and the theorems about it at concrete frames.
use meter_logger.Prelude.{
  ℕ, ◌/◌, ◌%◌, ◌^◌, ◌≤◌, ◌≡◌, refl, some, none, List, [], ◌∷◌, ◌++◌, length, length-copy_to, take,
  take-copy_to, copy_to, replicate, arith,
}
use meter_logger.Crc.{ccit_crc16, ccit_crc16_table}
use meter_logger.Crc.Polynomial.{crc_bitwise}
use meter_logger.Crc.Reference.{ccit_crc16-bitwise}
use meter_logger.Kmp.Frame.{frame_l, stuff_bytes}
use meter_logger.Kmp.Request.{kmp_get_serial, clear}
use meter_logger.Kmp.Response.{Register, no_response, decoded, crc_error, kmp_decode_frame}
use meter_logger.Kmp.Contents.{Holds}
use meter_logger.Kmp.Wire.{wire, crc_bytes}
use meter_logger.Kmp.Decoding.{unstuffed}
use meter_logger.Kmp.Registers.{Fits}
use meter_logger.Kmp.Replies.{buffer}
use meter_logger.Kmp.Encoding.{IsWord}
use meter_logger.Kmp.Meter.{
  register_reply, kmp_decode_frame_registers, kmp_decode_frame_overrun, kmp_decode_frame_damaged,
}

-- The check value of CRC-CCITT (XModem) for "123456789".
crc_check :
    ccit_crc16 0 (0x31 ∷ 0x32 ∷ 0x33 ∷ 0x34 ∷ 0x35 ∷ 0x36 ∷ 0x37 ∷ 0x38 ∷ 0x39 ∷ []) ≡ 0x31c3
unfolding ccit_crc16 ccit_crc16_table
crc_check = refl

ccit_crc16-bitwise_example :
    ccit_crc16 0xffff (0x31 ∷ 0x0d ∷ []) ≡ crc_bitwise 0xffff (0x31 ∷ 0x0d ∷ [])
ccit_crc16-bitwise_example =
    ccit_crc16-bitwise 0xffff (0x31 ∷ 0x0d ∷ []) (omega arith) (omega arith)

-- A buffer of KMP_FRAME_L bytes with the content at its start.
loaded : List ℕ → List ℕ
loaded content = copy_to (replicate frame_l 0) 0 content

length-loaded : (content : List ℕ) → length (loaded content) ≡ frame_l
unfolding loaded
length-loaded content = length-copy_to (replicate frame_l 0) 0 content

loaded-Holds :
    (content : List ℕ)
    → length content ≤ frame_l
    → Holds (buffer 0 (loaded content) (length content)) content
unfolding loaded
loaded-Holds content h = record {
  room = omega (arith, length-loaded content);
  size = refl;
  bytes = take-copy_to (replicate frame_l 0) 0 (length content) content (omega arith) h;
}

abbrev energy : Register
energy = record { rid = 0x3c; unit = 0x02; length = 4; si_ex = 0x42; value = 1234567 }

energy-Fits : Fits energy
energy-Fits = omega arith

abbrev energy_content : List ℕ
energy_content = wire 0x40 (
    register_reply 0x3f (energy ∷ energy ∷ [])
    ++ crc_bytes (register_reply 0x3f (energy ∷ energy ∷ [])))

energy-Holds : Holds (buffer 0 (loaded energy_content) (length energy_content)) energy_content
unfolding stuff_bytes ccit_crc16 ccit_crc16_table
energy-Holds = loaded-Holds energy_content (omega arith)

energy-IsWord : IsWord energy
energy-IsWord = record { fits = energy-Fits; four = refl }

kmp_decode_frame_registers_example :
    kmp_decode_frame 0 (loaded energy_content) (length energy_content)
    ≡ some (
      decoded,
      record no_response {
        register_list = copy_to no_response.register_list 0 (energy ∷ energy ∷ []);
      },
      unstuffed (buffer 0 (loaded energy_content) (length energy_content)),
    )
kmp_decode_frame_registers_example =
    kmp_decode_frame_registers 0 (loaded energy_content) (length energy_content) 0x40 0x3f
      (energy ∷ energy ∷ []) energy-Holds (energy-IsWord, (energy-IsWord, tt)) (omega arith)
      (omega arith)

abbrev nine_energies : List Register
nine_energies = energy ∷ energy ∷ energy ∷ energy ∷ energy ∷ energy ∷ energy ∷ energy ∷ energy ∷ []

abbrev nine_content : List ℕ
nine_content =
    wire 0x40 (register_reply 0x3f nine_energies ++ crc_bytes (register_reply 0x3f nine_energies))

nine-Holds : Holds (buffer 0 (loaded nine_content) (length nine_content)) nine_content
unfolding stuff_bytes ccit_crc16 ccit_crc16_table
nine-Holds = loaded-Holds nine_content (omega arith)

kmp_decode_frame_overrun_example :
    kmp_decode_frame 0 (loaded nine_content) (length nine_content) ≡ none
kmp_decode_frame_overrun_example =
    kmp_decode_frame_overrun 0 (loaded nine_content) (length nine_content) 0x40 0x3f nine_energies
      nine-Holds (omega arith) (omega arith)

abbrev serial_body : List ℕ
serial_body =
    0x3f
    ∷ 0x02
    ∷ 6615388 / 2 ^ 24
    ∷ 6615388 / 2 ^ 16 % 2 ^ 8
    ∷ 6615388 / 2 ^ 8 % 2 ^ 8
    ∷ 6615388 % 2 ^ 8
    ∷ []

abbrev serial_content : List ℕ
serial_content = wire 0x40 (serial_body ++ crc_bytes serial_body)

serial-Holds : Holds (buffer 0 (loaded serial_content) (length serial_content)) serial_content
unfolding stuff_bytes ccit_crc16 ccit_crc16_table
serial-Holds = loaded-Holds serial_content (omega arith)

-- The second byte was 2 when the CRC was made.
abbrev damaged_content : List ℕ
damaged_content =
    wire 0x40 (((0x3f ∷ []) ++ 0x10 ∷ 0 ∷ []) ++ crc_bytes ((0x3f ∷ []) ++ 0x02 ∷ 0 ∷ []))

damaged-Holds : Holds (buffer 0 (loaded damaged_content) (length damaged_content)) damaged_content
unfolding stuff_bytes ccit_crc16 ccit_crc16_table
damaged-Holds = loaded-Holds damaged_content (omega arith)

kmp_decode_frame_damaged_example :
    kmp_decode_frame 0 (loaded damaged_content) (length damaged_content)
    ≡ some (
      crc_error,
      no_response,
      unstuffed (buffer 0 (loaded damaged_content) (length damaged_content)),
    )
kmp_decode_frame_damaged_example =
    kmp_decode_frame_damaged 0 (loaded damaged_content) (length damaged_content) 0x40 0x02 0x10
      (0x3f ∷ []) (0 ∷ []) damaged-Holds (omega arith) (omega arith) (omega arith) (omega arith)
      (omega arith) (omega arith)

-- The frame of the request for the serial number, byte by byte.
kmp_get_serial_runs :
    take 7 (kmp_get_serial (loaded [])).frame ≡ 0x80 ∷ 0x3f ∷ 0x02 ∷ 0x35 ∷ 0xe9 ∷ 0x0d ∷ 0 ∷ []
unfolding kmp_get_serial clear loaded ccit_crc16_table
kmp_get_serial_runs = refl

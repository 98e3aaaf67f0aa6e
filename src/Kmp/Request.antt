-- ===== src/Kmp/Request.antt =====
-- user/kamstrup/kmp.c: the requests that the logger sends to the meter.
use meter_logger.Prelude.{
  ℕ, ◌+◌, ◌*◌, ◌/◌, ◌%◌, ◌^◌, bit_and, List, [], ◌∷◌, if◌then◌else◌, ltb, set, replicate, take,
  copy_to,
}
use meter_logger.Kmp.Frame.{
  Kmp, frame_l, start_byte_idx, dst_idx, cid_idx, data_idx, kmp_byte_stuff, kmp_crc16,
}

-- `memset(kmp_frame, 0x00, KMP_FRAME_L)`
unfoldable pub clear : List ℕ → List ℕ
clear frame = copy_to frame 0 (replicate frame_l 0)

-- The start byte, the destination and the command.
unfoldable pub put_header : List ℕ → ℕ → List ℕ
put_header frame cid = set (set (set (clear frame) start_byte_idx 0x80) dst_idx 0x3f) cid_idx cid

-- `crc16 = kmp_crc16()`, high byte first behind the data.
unfoldable pub put_crc : Kmp → Kmp
unfolding kmp_crc16
put_crc k =
    let crc16 = kmp_crc16 k in
    record k {
      frame =
          set (set k.frame k.frame_length (crc16 / 2 ^ 8)) (k.frame_length + 1)
            (bit_and crc16 0xff);
      frame_length = k.frame_length + 2;
    }

-- `kmp_byte_stuff()`, and the stop byte behind the result.
unfoldable pub stuff_and_stop : Kmp → Kmp
unfolding kmp_byte_stuff
stuff_and_stop k =
    let s = kmp_byte_stuff k in
    record s { frame = set s.frame s.frame_length 0x0d; frame_length = s.frame_length + 1 }

-- The request returns `kmp_frame_length`; the frame is in the record.
unfoldable pub kmp_get_type : List ℕ → Kmp
unfolding put_header put_crc stuff_and_stop
kmp_get_type frame =
    let k = put_crc (record { frame = put_header frame 0x01; frame_length = 3; data_length = 2 }) in
    stuff_and_stop (record k { data_length = k.data_length + 2 })

unfoldable pub kmp_get_serial : List ℕ → Kmp
unfolding put_header put_crc stuff_and_stop
kmp_get_serial frame =
    let k = put_crc (record { frame = put_header frame 0x02; frame_length = 3; data_length = 2 }) in
    stuff_and_stop (record k { data_length = k.data_length + 2 })

-- Not implemented: the answer is 0, and the frame is left as it is.
abbrev pub kmp_set_clock : List ℕ → ℕ → ℕ × List ℕ
kmp_set_clock frame unix_time = (0, frame)

-- The loop over `register_list[i..)`: two bytes for each register, high byte first.
unfoldable pub put_registers : List ℕ → ℕ → List ℕ → List ℕ
put_registers frame i [] = frame
put_registers frame i (r ∷ rest) =
    put_registers
      (set (set frame (data_idx + 2 * i + 1) (r / 2 ^ 8 % 2 ^ 8)) (data_idx + 2 * i + 2)
        (bit_and r 0xff))
      (i + 1) rest

-- `register_list` is the array, of at least `register_list_length` entries.
unfoldable pub kmp_get_register : List ℕ → List ℕ → ℕ → Kmp
unfolding put_header put_registers put_crc stuff_and_stop
kmp_get_register frame register_list register_list_length =
    let n = if ltb 8 register_list_length then 8 else register_list_length in
    let start = set (put_header frame 0x10) data_idx n in
    stuff_and_stop (
      put_crc (record {
        frame = put_registers start 0 (take n register_list);
        frame_length = 4 + 2 * n;
        data_length = 3 + 2 * n;
      }))

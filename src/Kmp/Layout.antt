-- ===== src/Kmp/Layout.antt =====
-- The requests of user/kamstrup/kmp.c are frames of the protocol.
use meter_logger.Prelude.{
  ℕ, ◌+◌, ◌*◌, ◌/◌, ◌%◌, ◌^◌, ◌≤◌, ◌<◌, bit_and, ◌≡◌, refl, ap, ◌∙◌, List, [], ◌∷◌, ◌++◌,
  append_assoc, append-nil, length, length-append, length-set, length-take, length-copy_to, take,
  set, take-set, if◌then◌else◌, ltb, arith,
}
use meter_logger.Prelude.Bits.{bit_and_byte}
use meter_logger.Crc.{ccit_crc16}
use meter_logger.Kmp.Frame.{Kmp, frame_l, data_idx, stuff_bytes, kmp_byte_stuff, kmp_crc16}
use meter_logger.Kmp.Request.{
  clear, put_header, put_crc, stuff_and_stop, put_registers, kmp_get_type, kmp_get_serial,
  kmp_get_register,
}
use meter_logger.Kmp.Contents.{Holds, kmp_crc16_lem, put_end, kmp_byte_stuff_lem}
use meter_logger.Kmp.Stuffing.{length-stuff_bytes}
use meter_logger.Kmp.Wire.{crc_bytes, wire, request, register_bytes}

length-clear : (frame : List ℕ) → length (clear frame) ≡ length frame
unfolding clear
length-clear frame = length-copy_to frame 0 _

length-put_header : (frame : List ℕ) (cid : ℕ) → length (put_header frame cid) ≡ length frame
unfolding put_header
length-put_header frame cid = simp (length-set, length-clear)

set_three :
    (xs : List ℕ) (a b c : ℕ)
    → 3 ≤ length xs
    → take 3 (set (set (set xs 0 a) 1 b) 2 c) ≡ a ∷ b ∷ c ∷ []
set_three [] a b c h = absurd (omega arith)
set_three (x ∷ []) a b c h = absurd (omega arith)
set_three (x ∷ y ∷ []) a b c h = absurd (omega arith)
set_three (x ∷ y ∷ z ∷ rest) a b c h = refl

-- The start of every request.
header_lem :
    (frame : List ℕ) (cid data_length : ℕ)
    → frame_l ≤ length frame
    → Holds
        (record { frame = put_header frame cid; frame_length = 3; data_length = data_length })
        (0x80 ∷ 0x3f ∷ cid ∷ [])
header_lem frame cid data_length h = record {
  room = omega (arith, length-put_header frame cid);
  size = refl;
  bytes =
      unfold put_header in
      set_three (clear frame) 0x80 0x3f cid (omega (arith, length-clear frame));
}

put_crc_steps :
    (k : Kmp)
    → let a = record k {
      frame = set k.frame k.frame_length (kmp_crc16 k / 2 ^ 8);
      frame_length = k.frame_length + 1;
    } in
      put_crc k ≡ record a {
        frame = set a.frame a.frame_length (bit_and (kmp_crc16 k) 0xff);
        frame_length = a.frame_length + 1;
      }
unfolding put_crc
put_crc_steps k = ground arith

-- The CRC goes behind the body.
put_crc_lem :
    (k : Kmp) {x : ℕ} (body : List ℕ)
    → Holds k (x ∷ body)
    → k.data_length ≡ length body
    → length body + 3 ≤ frame_l
    → Holds (put_crc k) (x ∷ (body ++ crc_bytes body))
put_crc_lem k {x} body h e fits =
    let all : Holds k (x ∷ (body ++ [])) = rw append-nil h in
    let crc : kmp_crc16 k ≡ ccit_crc16 0 body = kmp_crc16_lem k body [] all e in
    let c = ccit_crc16 0 body in
    let a = record k {
      frame = set k.frame k.frame_length (c / 2 ^ 8);
      frame_length = k.frame_length + 1;
    } in
    let ah : Holds a ((x ∷ body) ++ c / 2 ^ 8 ∷ []) =
      put_end k (c / 2 ^ 8) h (omega (arith, h.size, h.room)) in
    let bh = put_end a (c % 256) ah (omega (arith, h.size, h.room, ah.room)) in
    rw (put_crc_steps k, crc, bit_and_byte c) (rw append_assoc at bh)

stuff_and_stop_lem :
    (k : Kmp) {x : ℕ} (p : List ℕ)
    → Holds k (x ∷ p)
    → 0 < length p
    → 2 * length p + 1 < frame_l
    → Holds (stuff_and_stop k) (wire x p)
stuff_and_stop_lem k {x} p h some_bytes fits =
    let s = kmp_byte_stuff k in
    let sh : Holds s (x ∷ stuff_bytes p) = kmp_byte_stuff_lem k p h some_bytes (omega arith) in
    rw steps (put_end s 0x0d sh (omega (arith, sh.size, sh.room, length-stuff_bytes p)))
  where
    steps : stuff_and_stop k ≡ (
        let s = kmp_byte_stuff k in
        record s { frame = set s.frame s.frame_length 0x0d; frame_length = s.frame_length + 1 })
    steps = unfold stuff_and_stop in refl

-- A body behind the start byte becomes a frame of the protocol.
finish_lem :
    (k : Kmp) (body : List ℕ)
    → Holds k (0x80 ∷ body)
    → k.data_length ≡ length body
    → length body ≤ 500
    → (d : ℕ) → Holds (stuff_and_stop (record (put_crc k) { data_length = d })) (request body)
finish_lem k body h e fits d =
    let c = put_crc_lem k body h e (omega arith) in
    let moved : Holds (record (put_crc k) { data_length = d }) (0x80 ∷ (body ++ crc_bytes body)) =
      record { room = c.room; size = c.size; bytes = c.bytes } in
    let size = length-append body (crc_bytes body) in
    stuff_and_stop_lem (record (put_crc k) { data_length = d }) (body ++ crc_bytes body) moved
      (omega (arith, size)) (omega (arith, size))

-- `kmp_get_type` leaves the frame of the request 3f 01 in the buffer, whatever the buffer held; the
-- frame's length is what it returns.
pub kmp_get_type_lem :
    (frame : List ℕ)
    → frame_l ≤ length frame
    → Holds (kmp_get_type frame) (request (0x3f ∷ 0x01 ∷ []))
unfolding kmp_get_type
kmp_get_type_lem frame h =
    finish_lem (record { frame = put_header frame 0x01; frame_length = 3; data_length = 2 })
      (0x3f ∷ 0x01 ∷ []) (header_lem frame 0x01 2 h) refl (omega arith) _

-- `kmp_get_serial` leaves the frame of the request 3f 02 in the buffer.
pub kmp_get_serial_lem :
    (frame : List ℕ)
    → frame_l ≤ length frame
    → Holds (kmp_get_serial frame) (request (0x3f ∷ 0x02 ∷ []))
unfolding kmp_get_serial
kmp_get_serial_lem frame h =
    finish_lem (record { frame = put_header frame 0x02; frame_length = 3; data_length = 2 })
      (0x3f ∷ 0x02 ∷ []) (header_lem frame 0x02 2 h) refl (omega arith) _

length-put_registers :
    (frame : List ℕ) (i : ℕ) (registers : List ℕ)
    → length (put_registers frame i registers) ≡ length frame
unfolding put_registers
length-put_registers frame i [] = refl
length-put_registers frame i (r ∷ rest) =
    let f1 = set frame (data_idx + 2 * i + 1) (r / 2 ^ 8 % 2 ^ 8) in
    length-put_registers (set f1 (data_idx + 2 * i + 2) (bit_and r 0xff)) (i + 1) rest
    ∙ simp length-set

-- The loop appends two bytes for each register.
put_registers_lem :
    (registers frame : List ℕ) (i n j : ℕ)
    → n ≡ 4 + 2 * i
    → j ≡ n + 2 * length registers
    → j ≤ length frame
    → take j (put_registers frame i registers) ≡ take n frame ++ register_bytes registers
unfolding put_registers
put_registers_lem [] frame i n j en ej fits =
    let same : n ≡ j = omega arith in rw (append-nil, ← same)
put_registers_lem (r ∷ rest) frame i n j en ej fits =
    let high = r / 2 ^ 8 % 2 ^ 8 in
    let f1 = set frame n high in
    let f2 = set f1 (n + 1) (r % 256) in
    let at_high : 3 + 2 * i + 1 ≡ n = omega arith in
    let at_low : 3 + 2 * i + 2 ≡ n + 1 = omega arith in
    let l1 = length-set frame n high in
    let l2 = length-set f1 (n + 1) (r % 256) in
    let t1 : take (n + 1) f1 ≡ take n frame ++ high ∷ [] =
      take-set frame n (n + 1) high refl (omega arith) in
    let t2 : take (n + 2) f2 ≡ take (n + 1) f1 ++ r % 256 ∷ [] =
      take-set f1 (n + 1) (n + 2) (r % 256) (omega arith) (omega (arith, l1)) in
    let ih =
      put_registers_lem rest f2 (i + 1) (n + 2) j (omega arith) (omega arith)
        (omega (arith, l1, l2)) in
    rw (at_high, at_low, bit_and_byte r)
      (rw (t2, t1, append_assoc (take n frame ++ high ∷ []), append_assoc) at ih)

length-register_bytes : (rs : List ℕ) → length (register_bytes rs) ≡ 2 * length rs
length-register_bytes [] = refl
length-register_bytes (r ∷ rest) = omega (arith, length-register_bytes rest)

-- The number of registers that one request can read.
abbrev pub clipped : ℕ → ℕ
clipped n = if ltb 8 n then 8 else n

-- `kmp_get_register` leaves the frame of the request 3f 10 in the buffer: the number of registers,
-- at most 8, and the numbers of the first so many in the list.
pub kmp_get_register_lem :
    (frame registers : List ℕ) (n : ℕ)
    → frame_l ≤ length frame
    → clipped n ≤ length registers
    → Holds
        (kmp_get_register frame registers n)
        (request (0x3f ∷ 0x10 ∷ clipped n ∷ register_bytes (take (clipped n) registers)))
unfolding kmp_get_register
kmp_get_register_lem frame registers n room enough =
    finish_lem k (0x3f ∷ 0x10 ∷ m ∷ register_bytes chosen) held sized (omega (arith, few, bytes)) _
  where
    m : ℕ
    m = clipped n

    chosen : List ℕ
    chosen = take m registers

    few : m ≤ 8
    few = ground arith

    count : length chosen ≡ m
    count = omega (arith, length-take m registers)

    bytes : length (register_bytes chosen) ≡ 2 * m
    bytes = omega (arith, length-register_bytes chosen, count)

    start : List ℕ
    start = set (put_header frame 0x10) 3 m

    long : length start ≡ length frame
    long = length-set (put_header frame 0x10) 3 m ∙ length-put_header frame 0x10

    k : Kmp
    k = record {
      frame = put_registers start 0 chosen;
      frame_length = 4 + 2 * m;
      data_length = 3 + 2 * m;
    }

    four : take 4 start ≡ 0x80 ∷ 0x3f ∷ 0x10 ∷ m ∷ []
    four =
        take-set (put_header frame 0x10) 3 4 m refl (omega (arith, length-put_header frame 0x10))
        ∙ ap (λ t. t ++ m ∷ []) (header_lem frame 0x10 0 room).bytes

    held : Holds k (0x80 ∷ 0x3f ∷ 0x10 ∷ m ∷ register_bytes chosen)
    held = record {
      room = omega (arith, long, length-put_registers start 0 chosen);
      size = omega (arith, bytes);
      bytes =
          put_registers_lem chosen start 0 4 (4 + 2 * m) refl (omega (arith, count))
            (omega (arith, long, few))
          ∙ ap (λ t. t ++ register_bytes chosen) four;
    }

    sized : k.data_length ≡ length (0x3f ∷ 0x10 ∷ m ∷ register_bytes chosen)
    sized = omega (arith, bytes)

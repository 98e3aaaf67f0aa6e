-- ===== src/Kmp/Response.antt =====
-- user/kamstrup/kmp.c and kmp.h: `kmp_decode_frame`. Numbers are kept as the bit patterns that the
-- fields hold (16 bits for the signed `rid`, 32 bits for the signed `value`).
use meter_logger.Prelude.{
  ℕ, zero, suc, ◌+◌, ◌-◌, ◌*◌, ◌/◌, ◌%◌, ◌^◌, bit_or, List, Option, none, some, if◌then◌else◌, ltb,
  ◌==◌, length, get_or, set, replicate,
}
use meter_logger.Kmp.Frame.{Kmp, cid_idx, data_idx, kmp_byte_unstuff, kmp_crc16}

-- `kmp_response_register_t`
pub record Register : Type 0 where
  pub rid : ℕ
  pub unit : ℕ
  pub length : ℕ
  pub si_ex : ℕ
  pub value : ℕ

abbrev pub no_register : Register
no_register = record { rid = 0; unit = 0; length = 0; si_ex = 0; value = 0 }

-- `kmp_response_t`; `kmp_response_register_list_t` is an array of 8.
pub record Response : Type 0 where
  pub serial : ℕ
  pub meter_type : ℕ
  pub sw_revision : ℕ
  pub register_list : List Register

abbrev pub max_registers : ℕ
max_registers = 8

abbrev pub no_response : Response
no_response = record {
  serial = 0;
  meter_type = 0;
  sw_revision = 0;
  register_list = replicate 8 no_register;
}

-- The return values -1, 0 and 1.
pub data Verdict : Type 0 where
  crc_error no_data decoded : Verdict

abbrev pub Outcome : Type 0
Outcome = Verdict × Response × Kmp

-- `kmp_frame[i]`
abbrev pub byte_at : List ℕ → ℕ → ℕ
byte_at frame i = get_or frame i 0

abbrev pub u16_at : List ℕ → ℕ → ℕ
u16_at frame i = (byte_at frame i * 2 ^ 8 + byte_at frame (i + 1)) % 2 ^ 16

abbrev pub u32_at : List ℕ → ℕ → ℕ
u32_at frame i =
    (byte_at frame i * 2 ^ 24
      + byte_at frame (i + 1) * 2 ^ 16
      + byte_at frame (i + 2) * 2 ^ 8
      + byte_at frame (i + 3))
    % 2 ^ 32

-- One round of the loop reads the register at `kmp_register_idx`.
abbrev pub register_at : List ℕ → ℕ → Register
register_at frame idx = record {
  rid = u16_at frame idx;
  unit = byte_at frame (idx + 2);
  length = byte_at frame (idx + 3);
  si_ex = byte_at frame (idx + 4);
  value = u32_at frame (idx + 5);
}

-- The loop at index `i`, with the rounds that are left. `none` is a write past the end of
-- `kmp_response_register_list`, which the code does not test for.
unfoldable pub read_registers : ℕ → ℕ → List ℕ → List Register → Option (List Register)
read_registers zero i frame registers = some registers
read_registers (suc left) i frame registers =
    let rest =
      read_registers left (i + 1) frame (set registers i (register_at frame (9 * i + data_idx))) in
    if ltb i (length registers) then rest else none

-- A reply with registers: `return 1` once the loop is through.
unfoldable pub with_registers : Kmp → Option (List Register) → Option Outcome
with_registers k none = none
with_registers k (some registers) =
    some (decoded, record no_response { register_list = registers }, k)

-- The application layer, by the command in the frame.
unfoldable pub decode_application : Kmp → Option Outcome
decode_application k =
    let cid = byte_at k.frame cid_idx in
    if cid == 0x01
    then some (
      decoded,
      record no_response {
        meter_type = u16_at k.frame data_idx;
        sw_revision = u16_at k.frame (data_idx + 2);
      },
      k,
    )
    else if cid == 0x02
    then some (decoded, record no_response { serial = u32_at k.frame data_idx }, k)
    else if cid == 0x10
    then (if ltb 2 k.data_length
        then with_registers k
            (read_registers ((k.data_length - 2) / 9) 0 k.frame no_response.register_list)
        else some (no_data, no_response, k))
    else if cid == 0x11
    then some (decoded, no_response, k)
    else some (no_data, no_response, k)

-- A frame that ends in the stop byte.
unfoldable pub decode_stopped : Kmp → Option Outcome
decode_stopped k0 =
    let u = kmp_byte_unstuff k0 in
    let k = record u { data_length = (u.frame_length + 2 ^ 32 - 4) % 2 ^ 32 } in
    let crc16 = kmp_crc16 k in
    let frame_crc16 =
      bit_or (byte_at k.frame (k.frame_length - 2)) (byte_at k.frame (k.frame_length - 3) * 2 ^ 8)
      % 2 ^ 16 in
    if frame_crc16 == crc16 then decode_application k else some (crc_error, no_response, k)

-- `data_length` is what the global `kmp_data_length` holds before the call.
unfoldable pub kmp_decode_frame : ℕ → List ℕ → ℕ → Option Outcome
kmp_decode_frame data_length frame frame_length =
    let k : Kmp = record {
      frame = frame;
      frame_length = frame_length;
      data_length = data_length;
    } in
    if frame_length == 0
    then some (no_data, no_response, k)
    else if frame_length == 1
    then some (no_data, no_response, k)
    else if ltb frame_length 6
    then some (no_data, no_response, k)
    else if byte_at frame (frame_length - 1) == 0x0d
    then decode_stopped k
    else some (no_data, no_response, k)

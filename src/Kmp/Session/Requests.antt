-- ===== src/Kmp/Session/Requests.antt =====
-- The requests that user/kamstrup/kmp_request.c sends to the meter.
use meter_logger.Prelude.{ℕ, ◌≤◌, ◌≡◌, refl, ap₂, false, some, List, [], ◌∷◌, length, arith}
use meter_logger.Sdk.{stopped, once}
use meter_logger.Kmp.Frame.{frame_l}
use meter_logger.Kmp.Wire.{request, register_bytes}
use meter_logger.Kmp.Request.{kmp_get_serial}
use meter_logger.Kmp.Layout.{kmp_get_serial_lem, kmp_get_register_lem}
use meter_logger.Kmp.Session.{
  KmpSession, Call, uart0_tx_buffer, kmp_request_send, kmp_get_serial_timer_func,
  kmp_get_register_timer_func, KmpEvent, serial_timer, register_timer, kmp_step, kmp_steps,
  register_numbers,
}

-- The numbers of the registers that a sample is made of: energy, volume, hours, the temperatures of the flow, of the
-- return flow and their difference, the flow, and the power.
abbrev pub sample_registers : List ℕ
sample_registers = 60 ∷ 68 ∷ 1004 ∷ 86 ∷ 87 ∷ 89 ∷ 74 ∷ 80 ∷ []

-- A session after a request and its first two timers.
pub record IsRequested (calls : List Call) (s : KmpSession) : Type 0 where
  pub requested_calls :
      s.calls
      ≡ uart0_tx_buffer (request (0x3f ∷ 0x10 ∷ 8 ∷ register_bytes sample_registers))
        ∷ uart0_tx_buffer (request (0x3f ∷ 0x02 ∷ []))
        ∷ calls
  pub requested_timeout : s.kmp_receive_timeout_timer ≡ once 2000
  pub requested_rest : s.kmp_get_register_timer ≡ stopped

-- When a sample is asked for outside an upgrade and the two timers for the requests fire, the complete
-- request for the serial number is sent, then the one for the registers 60, 68, 1004, 86, 87, 89, 74 and 80, both
-- with their CRC and stuffed, and the timer for the answer is armed.
pub request-IsRequested :
    (s : KmpSession)
    → frame_l ≤ length s.frame
    → (q : KmpSession) × (kmp_steps (KmpEvent.request false ∷ serial_timer ∷ register_timer ∷ []) s
        ≡ some q)
      × IsRequested s.calls q
unfolding kmp_steps kmp_step kmp_request_send kmp_get_serial_timer_func kmp_get_register_timer_func
request-IsRequested s room =
    let serial = kmp_get_serial_lem s.frame room in
    let k = kmp_get_serial s.frame in
    let registers = kmp_get_register_lem k.frame register_numbers 8 serial.room (omega arith) in
    (
      _,
      refl,
      record {
        requested_calls =
            ap₂ (λ a b. uart0_tx_buffer a ∷ uart0_tx_buffer b ∷ s.calls) registers.bytes
              serial.bytes;
        requested_timeout = refl;
        requested_rest = refl;
      },
    )

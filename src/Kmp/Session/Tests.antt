-- ===== src/Kmp/Session/Tests.antt =====
-- Sessions of user/kamstrup/kmp_request.c and values of user/kamstrup/kmp.c at concrete inputs.
use meter_logger.Prelude.{
  ℕ, ◌+◌, ◌%◌, ◌/◌, ◌^◌, ◌≡◌, refl, true, false, some, List, [], ◌∷◌, ◌++◌, length,
  length-replicate, replicate, copy_to, arith,
}
use meter_logger.Prelude.Text.{Text, codes}
use meter_logger.Sdk.{stopped}
use meter_logger.Decimal.{int_pow, pow_loop, decimal_number_length}
use meter_logger.Crc.{ccit_crc16, ccit_crc16_table}
use meter_logger.Crypto.Tests.{plain, plain-IsSound, keys}
use meter_logger.Fifo.Refine.{IsValid, contents}
use meter_logger.Kmp.Frame.{frame_l, stuff_bytes}
use meter_logger.Kmp.Wire.{wire, crc_bytes}
use meter_logger.Kmp.Response.{Register, no_response}
use meter_logger.Kmp.Registers.{Fits}
use meter_logger.Kmp.Meter.{register_reply}
use meter_logger.Kmp.Values.{overrun, rendered, kmp_value_to_string, kmp_unit_to_string}
use meter_logger.Kmp.Rendering.{
  IsPrinter, fraction, si_ex_of, sign_of, kmp_value_to_string_lem, kmp_value_to_string-overrun,
}
use meter_logger.Kmp.Session.{
  KmpSession, KmpInputs, KmpEvent, task, serial_timer, register_timer, timeout, kmp_request_init,
  kmp_request_send, kmp_receive_timeout_timer_func, kmp_step, kmp_steps,
}
use meter_logger.Kmp.Session.Silence.{timeout_silent}
use meter_logger.Kmp.Session.Requests.{IsRequested, request-IsRequested}
use meter_logger.Kmp.Session.Shown.{reply_text}
use meter_logger.Kmp.Session.Deliver.{IsSampled, kmp_task-IsSampled}

-- As many digits as the number has, all of them its last.
print : ℕ → Text
print n = replicate (decimal_number_length n) (48 + n % 10)

print-IsPrinter : IsPrinter print
unfolding print
print-IsPrinter n h =
    let digit : ℕ = 48 + n % 10 in length-replicate (decimal_number_length n) digit

kmp_value_to_string_lem_example :
    let digits = fraction print 3 (12345 % 10 ^ 3) in
    (kmp_value_to_string print 12345 (si_ex_of true 3)
      ≡ rendered (sign_of true ++ print (12345 / 10 ^ 3) ++ codes "." ++ digits))
    × (length digits ≡ 3)
kmp_value_to_string_lem_example =
    kmp_value_to_string_lem print 12345 3 true print-IsPrinter (omega arith) (omega arith)
      (omega arith)

kmp_value_to_string-overrun_example : kmp_value_to_string print 12345 (si_ex_of false 0) ≡ overrun
kmp_value_to_string-overrun_example = kmp_value_to_string-overrun print 12345 false (omega arith)

-- All variables are 0 before the start.
abbrev blank : KmpSession
blank = record {
  kmp_serial = 0;
  meter_is_ready_cb_called = false;
  fifo = record { buffer = replicate 256 0; head = 0; tail = 0; fill_count = 0 };
  frame = replicate frame_l 0;
  frame_length = 0;
  data_length = 0;
  kmp_get_serial_timer = stopped;
  kmp_get_register_timer = stopped;
  kmp_receive_timeout_timer = stopped;
  kmp_requests_sent = 0;
  e1_kwh = 0;
  posted = 0;
  calls = [];
}

start : KmpSession
start = kmp_request_init blank

requested :
    (q : KmpSession) × (kmp_steps (KmpEvent.request false ∷ timeout false ∷ []) start ≡ some q)
unfolding kmp_steps kmp_step start kmp_request_send
requested = (_, refl)

timeout_silent_example :
    (requested.0.kmp_requests_sent ≡ 0)
    × (kmp_receive_timeout_timer_func false requested.0 ≡ requested.0)
unfolding start kmp_request_init
timeout_silent_example =
    timeout_silent (KmpEvent.request false ∷ timeout false ∷ []) start requested.0 false refl
      requested.1

request-IsRequested_example :
    (q : KmpSession) × (kmp_steps
        (KmpEvent.request false ∷ serial_timer ∷ register_timer ∷ [])
        blank
      ≡ some q)
    × IsRequested [] q
request-IsRequested_example =
    let nul : ℕ = 0 in request-IsRequested blank (omega (arith, length-replicate frame_l nul))

abbrev energy : Register
energy = record { rid = 0x3c; unit = 3; length = 4; si_ex = 0; value = 5 }

energy-Fits : Fits energy
energy-Fits = omega arith

abbrev reply : List ℕ
reply = 64 ∷ 63 ∷ 16 ∷ 0 ∷ 60 ∷ 3 ∷ 4 ∷ 0 ∷ 0 ∷ 0 ∷ 0 ∷ 5 ∷ 57 ∷ 15 ∷ 13 ∷ []

-- The reply stands in the FIFO, and the serial number is known.
abbrev waiting : KmpSession
waiting = record blank {
  kmp_serial = 7;
  fifo = record { buffer = reply ++ replicate 241 0; head = 15; tail = 0; fill_count = 15 };
  posted = 1;
}

reply_held :
    contents waiting.fifo
    ≡ wire 0x40 (register_reply 0x3f (energy ∷ []) ++ crc_bytes (register_reply 0x3f (energy ∷ [])))
unfolding stuff_bytes ccit_crc16 ccit_crc16_table
reply_held = refl

waiting-IsValid : IsValid waiting.fifo
waiting-IsValid = record {
  size = refl;
  tail_in = omega arith;
  fill_in = omega arith;
  head_is = refl;
}

abbrev inputs : KmpInputs
inputs = record {
  formats = record {
    scan_float = λ text old. old;
    print_unsigned = λ n. (48 + n % 10) ∷ [];
    thousandfold_of = λ word. word;
  };
  primitives = plain;
  keys = keys;
  iv = replicate 16 9;
  unix_time = 1700000000;
  heap = 20000;
  mqtt_client = true;
  ready_cb_set = true;
  sent_cb_set = true;
  value_string = [];
}

abbrev sampled_text : Text
sampled_text =
    codes
      "heap=0&t1=0 unknown&t2=0 unknown&tdif=0 unknown&flow1=0 unknown&effect1=0 unknown&hr=0 unknown&v1=0 unknown&e1=5 MWh&"

text_shown :
    reply_text inputs.formats inputs.heap (copy_to no_response.register_list 0 (energy ∷ []))
    ≡ some sampled_text
unfolding kmp_value_to_string kmp_unit_to_string int_pow pow_loop
text_shown = refl

kmp_task-IsSampled_example :
    (q : KmpSession) × (kmp_step (task inputs) waiting ≡ some q)
    × IsSampled inputs 7 sampled_text (replicate 1100 0) q
kmp_task-IsSampled_example =
    let nul : ℕ = 0 in
    kmp_task-IsSampled inputs waiting 0x40 0x3f (energy ∷ []) sampled_text (replicate 1100 0)
      plain-IsSound refl refl (λ e. absurd (omega (arith, e))) (λ e. absurd (omega (arith, e)))
      waiting-IsValid reply_held (omega arith) (energy-Fits, tt) (omega arith) (omega arith)
      text_shown (omega (arith, length-replicate 1100 nul))

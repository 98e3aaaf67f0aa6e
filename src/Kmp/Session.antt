-- ===== src/Kmp/Session.antt =====
-- The session with the meter, user/kamstrup/kmp_request.c: the requests with their timers, and the task for what
-- is received, in the build without FLOW_METER and without the commands for debugging. The module Silence
-- is about the timeout, Requests about what is sent, Shown about the text of a sample, Deliver about what is published.
use meter_logger.Prelude.{
  ℕ, zero, suc, ◌+◌, ◌-◌, ◌%◌, ◌^◌, Bool, true, false, ◌&&◌, ◌||◌, not, Option, none, some,
  if◌then◌else◌, ltb, leb, ◌==◌, List, [], ◌∷◌, ◌++◌, length, take, replicate, get_or,
}
use meter_logger.Prelude.Text.{Text, codes, text_eq}
use meter_logger.Prelude.Search.{starts_with}
use meter_logger.Sdk.{Timer, stopped, once, every, fire}
use meter_logger.Crypto.{Primitives, Keys, encrypt_aes_hmac_combined}
use meter_logger.Fifo.Ring.{Fifo, kmp_fifo_put, kmp_fifo_get}
use meter_logger.Kmp.Frame.{Kmp, frame_l}
use meter_logger.Kmp.Request.{kmp_get_serial, kmp_get_register}
use meter_logger.Kmp.Response.{
  Register, no_register, Response, Verdict, Outcome, crc_error, no_data, decoded, kmp_decode_frame,
}
use meter_logger.Kmp.Values.{
  Rendered, not_rendered, overrun, rendered, kmp_value_to_string, kmp_unit_to_string,
}
pub mod Silence
pub mod Requests
pub mod Shown
pub mod Deliver
mod Tests

-- The calls of other parts of the program.
pub data Call : Type 0 where
  meter_is_ready meter_sent_data : Call
  uart0_tx_buffer : List ℕ → Call
  mqtt_publish : Text → List ℕ → Call

-- The variables of the file, with `kmp_data_length` of kmp.c, the number of posted tasks, and the calls so
-- far, the last one first. `e1_kwh` is the word of a float.
pub record KmpSession : Type 0 where
  pub kmp_serial : ℕ
  pub meter_is_ready_cb_called : Bool
  pub fifo : Fifo
  pub frame : List ℕ
  pub frame_length : ℕ
  pub data_length : ℕ
  pub kmp_get_serial_timer : Timer
  pub kmp_get_register_timer : Timer
  pub kmp_receive_timeout_timer : Timer
  pub kmp_requests_sent : ℕ
  pub e1_kwh : ℕ
  pub posted : ℕ
  pub calls : List Call

-- tinyprintf on the words of floats, `%u` and `%llu`, and the word times 1000.0.
pub record KmpFormats : Type 0 where
  pub scan_float : Text → ℕ → ℕ
  pub print_unsigned : ℕ → Text
  pub thousandfold_of : ℕ → ℕ

-- What one run of the task finds outside the file; `mqtt_client` is whether it is set,
-- and `value_string` is what stands in `kmp_value_string` at first.
pub record KmpInputs : Type 0 where
  pub formats : KmpFormats
  pub primitives : Primitives
  pub keys : Keys
  pub iv : List ℕ
  pub unix_time : ℕ
  pub heap : ℕ
  pub mqtt_client : Bool
  pub ready_cb_set : Bool
  pub sent_cb_set : Bool
  pub value_string : Text

unfoldable pub kmp_request_init : KmpSession → KmpSession
kmp_request_init s = record s { fifo = record s.fifo { head = 0; tail = 0 }; kmp_requests_sent = 0 }

unfoldable pub kmp_request_send : Bool → KmpSession → KmpSession
kmp_request_send ota_in_progress s =
    let armed : KmpSession = record s {
      kmp_get_serial_timer = once 0;
      kmp_get_register_timer = once 400;
      kmp_receive_timeout_timer = once 2000;
      kmp_requests_sent = (s.kmp_requests_sent + 1) % 2 ^ 32;
    } in
    if ota_in_progress then s else record armed { kmp_requests_sent = 0 }

unfoldable pub kmp_request_destroy : KmpSession → KmpSession
kmp_request_destroy s = record s {
  kmp_get_serial_timer = stopped;
  kmp_get_register_timer = stopped;
  kmp_receive_timeout_timer = stopped;
}

-- `frame_length = ...(frame)`, and the frame is sent.
abbrev send_frame : Kmp → KmpSession → KmpSession
send_frame k s = record s {
  frame = k.frame;
  frame_length = k.frame_length;
  data_length = k.data_length;
  calls = uart0_tx_buffer (take k.frame_length k.frame) ∷ s.calls;
}

unfoldable pub kmp_get_serial_timer_func : KmpSession → KmpSession
kmp_get_serial_timer_func s = send_frame (kmp_get_serial s.frame) s

-- E1, V1, HR, T1, T2, T1 - T2, FLOW1 and EFFEKT1.
abbrev pub register_numbers : List ℕ
register_numbers = 0x3c ∷ 0x44 ∷ 0x3ec ∷ 0x56 ∷ 0x57 ∷ 0x59 ∷ 0x4a ∷ 0x50 ∷ []

unfoldable pub kmp_get_register_timer_func : KmpSession → KmpSession
kmp_get_register_timer_func s = send_frame (kmp_get_register s.frame register_numbers 8) s

unfoldable pub kmp_receive_timeout_timer_func : Bool → KmpSession → KmpSession
kmp_receive_timeout_timer_func ota_in_progress s =
    let sent = kmp_request_send ota_in_progress s in if ltb 0 s.kmp_requests_sent then sent else s

-- The loop of the task over the FIFO, with room for `room` more bytes.
unfoldable pub kmp_drain : ℕ → Fifo → List ℕ × Fifo
kmp_drain zero f = ([], (kmp_fifo_get f).1)
kmp_drain (suc room) f =
    let r = kmp_fifo_get f in
    let rest = kmp_drain room r.1 in elim r.0 [ none ↦ ([], r.1) | some c ↦ (c ∷ rest.0, rest.1) ]

-- `MQTT_TOPIC_L`, which also cuts the values
abbrev pub key_value_l : ℕ
key_value_l = 128

-- The text of a value: none if its digits would be written past their array.
abbrev pub value_text : Rendered → Option Text
value_text not_rendered = some (codes "NaN")
value_text overrun = none
value_text (rendered t) = some t

-- A value that is appended: `name=value unit&`.
unfoldable pub append_value : KmpFormats → Text → Register → Option Text → Option Text
append_value f name r none = none
append_value f name r (some message) =
    elim (value_text (kmp_value_to_string f.print_unsigned r.value r.si_ex)) [
      | none ↦ none
      | some value ↦ some (
          message
          ++ take (key_value_l - 1)
              (name ++ codes "=" ++ value ++ codes " " ++ kmp_unit_to_string r.unit ++ codes "&"))
    ]

-- The text of the sample in `message`.
unfoldable pub message_text : KmpFormats → ℕ → Response → Option Text
unfolding append_value
message_text f heap response =
    let r = λ (i : ℕ). get_or response.register_list i no_register in
    let start =
      some (take (key_value_l - 1) (codes "heap=" ++ f.print_unsigned heap ++ codes "&")) in
    let with_t1 = append_value f (codes "t1") (r 3) start in
    let with_t2 = append_value f (codes "t2") (r 4) with_t1 in
    let with_tdif = append_value f (codes "tdif") (r 5) with_t2 in
    let with_flow = append_value f (codes "flow1") (r 6) with_tdif in
    let with_effect = append_value f (codes "effect1") (r 7) with_flow in
    let with_hr = append_value f (codes "hr") (r 2) with_effect in
    let with_v1 = append_value f (codes "v1") (r 1) with_hr in
    append_value f (codes "e1") (r 0) with_v1

-- The text in `kmp_value_string`, which a value without a text leaves as it was.
abbrev value_string : Rendered → Text → Text
value_string not_rendered before = before
value_string overrun before = before
value_string (rendered t) before = t

-- `kmp_value_string` after the values of the registers with these indices.
unfoldable pub last_value : KmpFormats → Response → List ℕ → Text → Text
last_value f response [] before = before
last_value f response (i ∷ is) before =
    let r = get_or response.register_list i no_register in
    last_value f response is
      (value_string (kmp_value_to_string f.print_unsigned r.value r.si_ex) before)

-- `e1_kwh` after the sample, where `before` stands in `kmp_value_string` at first.
unfoldable pub energy_of : KmpFormats → Text → Response → ℕ → ℕ
energy_of f before response old =
    let r = get_or response.register_list 0 no_register in
    let value = last_value f response (3 ∷ 4 ∷ 5 ∷ 6 ∷ 7 ∷ 2 ∷ 1 ∷ 0 ∷ []) before in
    let word = f.scan_float value old in
    if starts_with (codes "MWh") (kmp_unit_to_string r.unit) then f.thousandfold_of word else word

-- `tfp_snprintf(topic, MQTT_TOPIC_L, "/sample/v2/%u/%s", kmp_serial, current_unix_time_string)`
unfoldable pub kmp_topic : KmpFormats → ℕ → ℕ → Text
kmp_topic f serial unix_time = take (key_value_l - 1) (
    codes "/sample/v2/"
    ++ f.print_unsigned serial
    ++ codes "/"
    ++ take 63 (f.print_unsigned unix_time))

-- The encrypted message, with what `cleartext` holds.
unfoldable pub kmp_sample : KmpInputs → ℕ → Text → ℕ × List ℕ
kmp_sample e serial text =
    encrypt_aes_hmac_combined e.primitives e.keys e.iv (replicate (frame_l + 64) 0)
      (kmp_topic e.formats serial e.unix_time) (take (frame_l - 1) text ++ 0 ∷ [])

-- The values are published and the main program is told.
unfoldable pub publish : KmpInputs → Text → KmpSession → KmpSession
publish e text s =
    let m = kmp_sample e s.kmp_serial text in
    let calls =
      if e.mqtt_client && (not (s.kmp_serial == 0) && ltb 1 m.0)
      then mqtt_publish (kmp_topic e.formats s.kmp_serial e.unix_time) (take m.0 m.1) ∷ s.calls
      else s.calls in
    record s {
      calls = if e.sent_cb_set then meter_sent_data ∷ calls else calls;
      kmp_requests_sent = 0;
    }

-- The main program is told once that the meter is ready.
unfoldable pub notify_meter : KmpInputs → KmpSession → KmpSession
notify_meter e s =
    let first = e.ready_cb_set && not s.meter_is_ready_cb_called in
    record s {
      meter_is_ready_cb_called = if first then true else s.meter_is_ready_cb_called;
      calls = if first then meter_is_ready ∷ s.calls else s.calls;
    }

-- A frame that was decoded: a serial number is kept, and any other answer is published.
unfoldable pub received_frame : KmpInputs → Response → KmpSession → Option KmpSession
unfolding publish message_text notify_meter
received_frame e response s =
    let ready = notify_meter e s in
    let energy = energy_of e.formats e.value_string response s.e1_kwh in
    if response.serial == 0
    then elim (message_text e.formats e.heap response) [
      | none ↦ none
      | some text ↦ some (publish e text (record ready { e1_kwh = energy }))
    ]
    else some (record ready { kmp_serial = response.serial })

-- The return value above 0.
abbrev pub is_decoded : Verdict → Bool
is_decoded crc_error = false
is_decoded no_data = false
is_decoded decoded = true

-- What the decoder answered, where the FIFO was drained; none is a write past an array.
unfoldable pub received_outcome : KmpInputs → Fifo → Option Outcome → KmpSession → Option KmpSession
unfolding received_frame
received_outcome e f none s = none
received_outcome e f (some o) s =
    let after : KmpSession = record s { fifo = f; data_length = o.2.data_length } in
    if is_decoded o.0 then received_frame e o.1 after else some after

-- The task. The array `message` is zeros behind the bytes.
unfoldable pub kmp_received_task : KmpInputs → KmpSession → Option KmpSession
unfolding received_outcome
kmp_received_task e s =
    let d = kmp_drain frame_l s.fifo in
    let message = d.0 ++ replicate (frame_l + 64 - length d.0) 0 in
    received_outcome e d.1 (kmp_decode_frame s.data_length message (length d.0)) s

-- `kmp_received_task_queue_length`
abbrev pub kmp_queue_length : ℕ
kmp_queue_length = 64

-- The interrupt: the stop byte or an acknowledge posts the task.
unfoldable pub kmp_receive : ℕ → KmpSession → KmpSession
kmp_receive c s =
    let stored : KmpSession = record s { fifo = (kmp_fifo_put s.fifo c).1 } in
    if (c == 0x0d || c == 0x06) && ltb s.posted kmp_queue_length
    then record stored { posted = s.posted + 1 }
    else stored

-- What happens to a session: a byte arrives, a posted task runs, a timer fires, or a sample is asked for.
pub data KmpEvent : Type 0 where
  received : ℕ → KmpEvent
  task : KmpInputs → KmpEvent
  serial_timer register_timer : KmpEvent
  timeout request : Bool → KmpEvent

abbrev is_armed : Timer → Bool
is_armed stopped = false
is_armed (once ms) = true
is_armed (every ms) = true

unfoldable pub kmp_step : KmpEvent → KmpSession → Option KmpSession
unfolding kmp_received_task
kmp_step (received c) s = some (kmp_receive c s)
kmp_step (task e) s =
    let run = kmp_received_task e (record s { posted = s.posted - 1 }) in
    if s.posted == 0 then some s else run
kmp_step serial_timer s =
    let fired : KmpSession = record s { kmp_get_serial_timer = fire s.kmp_get_serial_timer } in
    if is_armed s.kmp_get_serial_timer then some (kmp_get_serial_timer_func fired) else some s
kmp_step register_timer s =
    let fired : KmpSession = record s { kmp_get_register_timer = fire s.kmp_get_register_timer } in
    if is_armed s.kmp_get_register_timer then some (kmp_get_register_timer_func fired) else some s
kmp_step (timeout ota) s =
    let fired : KmpSession = record s {
      kmp_receive_timeout_timer = fire s.kmp_receive_timeout_timer;
    } in
    if is_armed s.kmp_receive_timeout_timer
    then some (kmp_receive_timeout_timer_func ota fired)
    else some s
kmp_step (request ota) s = some (kmp_request_send ota s)

-- A run ends at a write past an array.
unfoldable pub kmp_steps : List KmpEvent → KmpSession → Option KmpSession
unfolding kmp_step
kmp_steps [] s = some s
kmp_steps (e ∷ es) s = elim (kmp_step e s) [ none ↦ none | some q ↦ kmp_steps es q ]

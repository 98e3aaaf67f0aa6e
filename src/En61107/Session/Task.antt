-- ===== src/En61107/Session/Task.antt =====
-- `en61107_received_task` of user/en61107/en61107_request.c, the interrupt of driver/uart.c that posts it,
-- and the events of a session.
use meter_logger.Prelude.{
  ℕ, ◌+◌, ◌-◌, ◌%◌, ◌^◌, Bool, true, false, ◌&&◌, not, if◌then◌else◌, ltb, leb, ◌==◌, List, [], ◌∷◌,
  ◌++◌, length, set, take, replicate,
}
use meter_logger.Prelude.Text.{Text, atoi}
use meter_logger.Sdk.{Timer, stopped, once, every, fire}
use meter_logger.Crypto.{Primitives, Keys, encrypt_aes_hmac_combined}
use meter_logger.Fifo.Ring.{en61107_fifo_put}
use meter_logger.En61107.{
  Formats, ParseResult, ok, err_unknown, err_empty_frame, err_no_stx, err_no_etx, err_bcc_mismatch,
  err_meter_type_bounds, En61107Response, en61107_frame_l,
}
use meter_logger.En61107.Telegram.{parse_en61107_frame}
use meter_logger.En61107.Standard.{
  parse_mc66cde_standard_data_1_frame, parse_mc66cde_standard_data_2_frame,
  parse_mc66cde_inst_values_frame,
}
use meter_logger.En61107.Sample.{message_l, sample_topic, sample_text}
use meter_logger.En61107.Session.{
  UartState, state_none, state_standard_data_1, state_standard_data_2, state_en61107_ident,
  state_en61107, state_inst_values, Session, meter_is_ready, meter_sent_data, mqtt_publish, drain,
  en61107_uart_send_en61107, en61107_uart_send_standard_data_1, en61107_uart_send_standard_data_2,
  en61107_uart_send_inst_values, en61107_is_eod_char, en61107_receive_timeout_timer_func,
  en61107_delayed_uart_change_setting_timer_func, en61107_request_send,
}

-- What one run of the task finds outside the file: the libraries, the keys, the random IV, the clock,
-- the free heap, whether the MQTT client is initialised and the callbacks are registered, and what
-- stands in the variables that the parsers do not initialise.
pub record Inputs : Type 0 where
  pub formats : Formats
  pub primitives : Primitives
  pub keys : Keys
  pub iv : List ℕ
  pub unix_time : ℕ
  pub heap : ℕ
  pub client_ready : Bool
  pub ready_cb_set : Bool
  pub sent_cb_set : Bool
  pub rid : Text
  pub word : ℕ

-- The array `message` with what was drained from the FIFO.
abbrev pub message_of : List ℕ → List ℕ
message_of bytes = bytes ++ replicate (message_l - length bytes) 0

-- `message[message_l - 2] = 0`
abbrev pub chopped : List ℕ → List ℕ
chopped bytes =
    if leb 2 (length bytes) then set (message_of bytes) (length bytes - 2) 0 else message_of bytes

abbrev pub is_error : ParseResult → Bool
is_error ok = false
is_error err_unknown = true
is_error err_empty_frame = true
is_error err_no_stx = true
is_error err_no_etx = true
is_error err_bcc_mismatch = true
is_error err_meter_type_bounds = true

-- `(uint32_t)atoi(response.customer_no)`
unfoldable pub parsed_serial : En61107Response → ℕ
parsed_serial r =
    let n = atoi r.customer_no in
    if n.negative then (2 ^ 32 - n.magnitude % 2 ^ 32) % 2 ^ 32 else n.magnitude % 2 ^ 32

-- The case of the telegram behind the parser: a retry after an error, the serial number from the first
-- telegram, unless it is 0, and the next request.
unfoldable pub after_telegram : ParseResult → Session → Session
after_telegram result s =
    let serial = parsed_serial s.response in
    let with_serial : Session = record s { serial = serial; serial_set = true } in
    if is_error result
    then record s { receive_timeout_timer = once 500 }
    else if s.serial_set
    then en61107_uart_send_inst_values s
    else if serial == 0
    then s
    else en61107_uart_send_inst_values with_serial

-- The case of the telegram.
unfoldable pub received_telegram : Inputs → Session → Session
unfolding after_telegram
received_telegram e s =
    let d = drain en61107_frame_l s.fifo in
    let message = message_of d.0 in
    let r = parse_en61107_frame e.formats e.rid e.word s.response message (length d.0) in
    after_telegram r.0 (record s { fifo = d.1; response = r.1 })

-- The topic and the message that are published after the last answer.
unfoldable pub sample : Inputs → ℕ → En61107Response → Text × (ℕ × List ℕ)
sample e serial r =
    let topic = sample_topic e.formats serial e.unix_time in
    let cleartext = sample_text e.formats e.heap r in
    (
      topic,
      encrypt_aes_hmac_combined e.primitives e.keys e.iv (replicate message_l 0) topic
          (cleartext ++ 0 ∷ []),
    )

-- The backoff starts anew, and the main program is told once that the meter is ready.
unfoldable pub notify_ready : Inputs → Session → Session
notify_ready e s =
    let first = e.ready_cb_set && not s.meter_is_ready_cb_called in
    record s {
      error_backoff_count = 0;
      meter_is_ready_cb_called = if first then true else s.meter_is_ready_cb_called;
      calls = if first then meter_is_ready ∷ s.calls else s.calls;
    }

-- The sample is queued if there is a client, the main program is told, and the session is idle.
unfoldable pub send_sample : Inputs → Text × (ℕ × List ℕ) → Session → Session
send_sample e m s =
    let calls =
      if e.client_ready && ltb 1 m.1.0
      then mqtt_publish m.0 (take m.1.0 m.1.1) ∷ s.calls
      else s.calls in
    record s {
      receive_timeout_timer = stopped;
      calls = if e.sent_cb_set then meter_sent_data ∷ calls else calls;
      uart_state = state_none;
      request_num = 0;
    }

-- The end of the last case.
unfoldable pub finish : Inputs → Session → Session
unfolding sample notify_ready send_sample
finish e s = let s = notify_ready e s in send_sample e (sample e s.serial s.response) s

unfoldable pub received_in : UartState → Inputs → Session → Session
unfolding finish received_telegram
received_in state_none e s = s
received_in state_en61107_ident e s = en61107_uart_send_en61107 s
received_in state_en61107 e s = received_telegram e s
received_in state_inst_values e s =
    let d = drain en61107_frame_l s.fifo in
    en61107_uart_send_standard_data_1 (record s {
      fifo = d.1;
      response = parse_mc66cde_inst_values_frame e.formats e.word s.response (message_of d.0);
    })
received_in state_standard_data_1 e s =
    let d = drain en61107_frame_l s.fifo in
    en61107_uart_send_standard_data_2 (record s {
      fifo = d.1;
      response = parse_mc66cde_standard_data_1_frame e.formats e.word s.response (chopped d.0);
    })
received_in state_standard_data_2 e s =
    let d = drain en61107_frame_l s.fifo in
    finish e (record s {
      fifo = d.1;
      response = parse_mc66cde_standard_data_2_frame s.response (chopped d.0);
    })

unfoldable pub en61107_received_task : Inputs → Session → Session
unfolding received_in
en61107_received_task e s = received_in s.uart_state e s

-- `en61107_received_task_queue_length`
abbrev pub queue_length : ℕ
queue_length = 64

-- The interrupt for a character. The SDK refuses a post to a full queue.
unfoldable pub uart_receive : ℕ → Session → Session
uart_receive c s =
    let s : Session = record s { fifo = (en61107_fifo_put s.fifo c).1 } in
    let r = en61107_is_eod_char c s in
    if r.0 && ltb r.1.posted queue_length then record r.1 { posted = r.1.posted + 1 } else r.1

-- What happens to a session: a character arrives, a posted task runs, a timer fires, and the main program
-- asks for a sample, with its `ota_in_progress`.
pub data Event : Type 0 where
  received : ℕ → Event
  task : Inputs → Event
  timeout uart_timer : Event
  request : Bool → Event

abbrev pub is_armed : Timer → Bool
is_armed stopped = false
is_armed (once ms) = true
is_armed (every ms) = true

unfoldable pub step : Event → Session → Session
step (received c) s = uart_receive c s
step (task e) s =
    let run : Session = en61107_received_task e (record s { posted = s.posted - 1 }) in
    if s.posted == 0 then s else run
step timeout s =
    let fired : Session = record s { receive_timeout_timer = fire s.receive_timeout_timer } in
    if is_armed s.receive_timeout_timer then en61107_receive_timeout_timer_func fired else s
step uart_timer s =
    let fired : Session = record s { delayed_uart_timer = fire s.delayed_uart_timer } in
    if is_armed s.delayed_uart_timer
    then en61107_delayed_uart_change_setting_timer_func fired
    else s
step (request ota_in_progress) s = en61107_request_send ota_in_progress s

unfoldable pub run : List Event → Session → Session
unfolding step
run [] s = s
run (e ∷ es) s = run es (step e s)

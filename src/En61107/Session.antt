-- ===== src/En61107/Session.antt =====
-- The session with the meter, user/en61107/en61107_request.c: the requests, their retransmission and the
-- recovery from errors. The module Task is the handler of what is received, Invariant proves what holds
-- in all runs, Recovery about silent meters, Received about the end of a telegram, Publish about the sample.
use meter_logger.Prelude.{
  ℕ, zero, suc, ◌+◌, ◌-◌, ◌*◌, ◌%◌, ◌^◌, Bool, true, false, ◌||◌, ◌&&◌, not, Option, none, some,
  if◌then◌else◌, ltb, leb, ◌==◌, List, [], ◌∷◌,
}
use meter_logger.Prelude.Text.{Text, codes}
use meter_logger.Sdk.{Timer, stopped, once, fire}
use meter_logger.Fifo.Ring.{Fifo, en61107_fifo_put, en61107_fifo_get, en61107_fifo_flush}
use meter_logger.En61107.{En61107Register, MeterProgram, En61107Response}
pub mod Task
pub mod Invariant
pub mod Runs
pub mod Recovery
pub mod Received
pub mod Telegram
pub mod Publish
mod Tests

-- `en61107_uart_state_t`
pub data UartState : Type 0 where
  state_none state_standard_data_1 state_standard_data_2 state_en61107_ident : UartState
  state_en61107 state_inst_values : UartState

abbrev pub is_none : UartState → Bool
is_none state_none = true
is_none state_standard_data_1 = false
is_none state_standard_data_2 = false
is_none state_en61107_ident = false
is_none state_en61107 = false
is_none state_inst_values = false

-- The rate and the stop bits of the UART. The word length is 7 and the parity even throughout.
pub record UartSettings : Type 0 where
  pub baut_rate : ℕ
  pub stop_bits : ℕ

-- The calls of other parts of the program, with their data.
pub data Call : Type 0 where
  led_blink meter_is_ready meter_sent_data : Call
  uart0_tx_buffer : Text → Call
  mqtt_publish : Text → List ℕ → Call

-- The variables of the file, the settings of the UART, the number of posted tasks that have not run, and
-- the calls so far, the last one first. The text in `frame` is that of the last `uart0_tx_buffer`.
pub record Session : Type 0 where
  pub serial : ℕ
  pub serial_set : Bool
  pub request_num : ℕ
  pub meter_is_ready_cb_called : Bool
  pub fifo : Fifo
  pub response : En61107Response
  pub receive_timeout_timer : Timer
  pub delayed_uart_timer : Timer
  pub uart_state : UartState
  pub uart_settings : UartSettings
  pub uart : UartSettings
  pub eod : ℕ
  pub etx_received : Bool
  pub is_in_error_recovery : Bool
  pub error_backoff_count : ℕ
  pub posted : ℕ
  pub calls : List Call

abbrev pub call : Call → Session → Session
call c s = record s { calls = c ∷ s.calls }

abbrev pub flush : Session → Session
flush s = record s { fifo = en61107_fifo_flush s.fifo }

abbrev pub settings : ℕ → ℕ → UartSettings
settings rate bits = record { baut_rate = rate; stop_bits = bits }

-- What the five requests have in common, after they set the end of the answer: 300 baud with two stop
-- bits, the state, the timeout, the text, and the settings for the answer with their delay.
unfoldable pub uart_send : UartState → ℕ → Text → ℕ → ℕ → Session → Session
uart_send state timeout text rate delay s = record s {
  uart = settings 300 2;
  uart_state = state;
  receive_timeout_timer = once timeout;
  uart_settings = settings rate 1;
  delayed_uart_timer = once delay;
  calls = uart0_tx_buffer text ∷ s.calls;
}

unfoldable pub en61107_uart_send_en61107_ident : Session → Session
en61107_uart_send_en61107_ident s =
    let ready : Session = record (flush s) { eod = 10; etx_received = false } in
    if s.is_in_error_recovery
    then s
    else uart_send state_en61107_ident 3000 (codes "/?!\r\n") 300 400 ready

unfoldable pub en61107_uart_send_en61107 : Session → Session
en61107_uart_send_en61107 s =
    let ready : Session = record s { eod = 3; etx_received = false } in
    if s.is_in_error_recovery
    then s
    else uart_send state_en61107 8000 (6 ∷ codes "000\r\n") 300 400 ready

unfoldable pub en61107_uart_send_standard_data_1 : Session → Session
en61107_uart_send_standard_data_1 s =
    let ready : Session = record s { eod = 13 } in
    if s.is_in_error_recovery
    then s
    else uart_send state_standard_data_1 3000 (codes "/#1\r") 1200 220 ready

unfoldable pub en61107_uart_send_standard_data_2 : Session → Session
en61107_uart_send_standard_data_2 s =
    let ready : Session = record s { eod = 13 } in
    if s.is_in_error_recovery
    then s
    else uart_send state_standard_data_2 3000 (codes "/#2\r") 1200 220 ready

unfoldable pub en61107_uart_send_inst_values : Session → Session
en61107_uart_send_inst_values s =
    let ready : Session = record s { eod = 13 } in
    if s.is_in_error_recovery
    then s
    else uart_send state_inst_values 3200 (codes "/#C") 1200 300 ready

-- The request that is sent again when no answer came.
unfoldable pub retransmit : UartState → Session → Session
retransmit state_none s = s
retransmit state_en61107_ident s = en61107_uart_send_en61107_ident s
retransmit state_en61107 s = en61107_uart_send_en61107_ident s
retransmit state_inst_values s = en61107_uart_send_inst_values s
retransmit state_standard_data_1 s = en61107_uart_send_standard_data_1 s
retransmit state_standard_data_2 s = en61107_uart_send_standard_data_2 s

-- On 32 bits: 5000 ms, doubled for each recovery so far, and at most 60000 ms.
unfoldable pub backoff_delay : ℕ → ℕ
backoff_delay count =
    let delay = 5000 * 2 ^ count % 2 ^ 32 in if ltb 60000 delay then 60000 else delay

-- Too many errors.
unfoldable pub recover : Session → Session
recover s = record s {
  is_in_error_recovery = true;
  uart_state = state_none;
  request_num = 0;
  error_backoff_count =
      if ltb s.error_backoff_count 10 then s.error_backoff_count + 1 else s.error_backoff_count;
  uart = settings 300 2;
  receive_timeout_timer = once (backoff_delay s.error_backoff_count);
}

-- `request_num <= 2` and `request_num++` on an `int8_t`, kept as its 8 bits.
abbrev pub at_most_2 : ℕ → Bool
at_most_2 n = leb n 2 || leb 128 n

abbrev pub increment8 : ℕ → ℕ
increment8 n = (n + 1) % 2 ^ 8

-- The timer that calls it is armed for one firing, and has stopped.
unfoldable pub en61107_receive_timeout_timer_func : Session → Session
en61107_receive_timeout_timer_func s =
    let s = flush (call led_blink s) in
    let again : Session = record s { is_in_error_recovery = false; request_num = 1 } in
    let next : Session = record s { request_num = increment8 s.request_num } in
    if s.is_in_error_recovery
    then en61107_uart_send_en61107_ident again
    else if at_most_2 next.request_num
    then retransmit next.uart_state next
    else recover next

unfoldable pub en61107_delayed_uart_change_setting_timer_func : Session → Session
en61107_delayed_uart_change_setting_timer_func s = record s { uart = s.uart_settings }

-- Whether the character ends what the task waits for.
unfoldable pub en61107_is_eod_char : ℕ → Session → Bool × Session
en61107_is_eod_char c s =
    if s.eod == 3
    then (if c == 3
        then (false, record s { etx_received = true })
        else if s.etx_received
        then (true, record s { etx_received = false })
        else (false, s))
    else (c == s.eod, s)

-- `while (en61107_fifo_get(&c) && ...) message[i++] = c` with room for `room` more: the call of get
-- that finds no room drops its character.
unfoldable pub drain : ℕ → Fifo → List ℕ × Fifo
drain zero f = ([], (en61107_fifo_get f).1)
drain (suc room) f =
    let r = en61107_fifo_get f in
    let rest = drain room r.1 in elim r.0 [ none ↦ ([], r.1) | some c ↦ (c ∷ rest.0, rest.1) ]

unfoldable pub en61107_request_send : Bool → Session → Session
en61107_request_send ota_in_progress s =
    if ota_in_progress
    then s
    else if s.is_in_error_recovery || not (is_none s.uart_state)
    then s
    else en61107_uart_send_en61107_ident
        (record s { fifo = (drain 1025 s.fifo).1; request_num = increment8 s.request_num })

abbrev pub zero_register : En61107Register
zero_register = record { value = []; unit = [] }

abbrev pub zero_response : En61107Response
zero_response = record {
  customer_no = [];
  meter_type = [];
  meter_program = record { a = 0; b = 0; ccc = 0; dd = 0; e = 0; ff = 0; gg = 0 };
  t1 = zero_register;
  t2 = zero_register;
  t3 = zero_register;
  tdif = zero_register;
  flow1 = zero_register;
  effect1 = zero_register;
  hr = zero_register;
  v1 = zero_register;
  e1 = zero_register;
}

-- `en61107_request_init`, which leaves the fill count of the FIFO; registering the task is a call of the SDK.
unfoldable pub en61107_request_init : Session → Session
en61107_request_init s = record s {
  fifo = record s.fifo { head = 0; tail = 0 };
  response = zero_response;
  uart_state = state_none;
  request_num = 0;
  etx_received = false;
  is_in_error_recovery = false;
  error_backoff_count = 0;
}

unfoldable pub en61107_request_destroy : Session → Session
en61107_request_destroy s = record s {
  receive_timeout_timer = stopped;
  delayed_uart_timer = stopped;
}

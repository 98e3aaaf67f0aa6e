-- ===== src/En61107/Session/Tests.antt =====
-- Sessions of the EN 61107 driver, from the start, before a telegram and before the sample.
use meter_logger.Prelude.{
  ℕ, ◌≤◌, ◌≡◌, ◌≢◌, refl, true, false, List, [], ◌∷◌, ◌++◌, map, replicate, arith,
}
use meter_logger.Prelude.Text.{codes, atoi, text_eq, digits_from, signed_from, is_space, is_digit}
use meter_logger.Sdk.{once, stopped}
use meter_logger.Crypto.Tests.{plain, plain-IsSound, keys}
use meter_logger.En61107.{en61107_response_set_value, en61107_response_set_unit}
use meter_logger.En61107.Answer.{body_of}
use meter_logger.En61107.Tests.{
  formats, meter, entries, volume, entries-IsTelegram, body_bcc, body_bcc_lem, read_response,
}
use meter_logger.En61107.Session.{
  state_none, state_standard_data_2, state_en61107, is_none, en61107_request_send,
  en61107_uart_send_en61107_ident, uart_send, en61107_receive_timeout_timer_func, retransmit,
  Session, settings, zero_response, en61107_request_init,
}
use meter_logger.En61107.Session.Task.{
  Inputs, parsed_serial, is_armed, Event, received, task, timeout, uart_timer, request, step, run,
}
use meter_logger.En61107.Session.Invariant.{IsSound}
use meter_logger.En61107.Session.Runs.{init-IsSound, run-IsSound, step-IsSound}
use meter_logger.En61107.Session.Recovery.{IsAsked, timeouts-IsAsked}
use meter_logger.En61107.Session.Telegram.{IsWaiting, IsRead, telegram-IsRead}
use meter_logger.En61107.Session.Publish.{IsDelivered, task-IsDelivered}

abbrev inputs : Inputs
inputs = record {
  formats = formats;
  primitives = plain;
  keys = keys;
  iv = replicate 16 9;
  unix_time = 1700000000;
  heap = 20000;
  client_ready = true;
  ready_cb_set = true;
  sent_cb_set = true;
  rid = [];
  word = 0;
}

-- All variables are 0 before the start.
abbrev blank : Session
blank = record {
  serial = 0;
  serial_set = false;
  request_num = 0;
  meter_is_ready_cb_called = false;
  fifo = record { buffer = replicate 256 0; head = 0; tail = 0; fill_count = 0 };
  response = zero_response;
  receive_timeout_timer = stopped;
  delayed_uart_timer = stopped;
  uart_state = state_none;
  uart_settings = settings 0 1;
  uart = settings 300 2;
  eod = 0;
  etx_received = false;
  is_in_error_recovery = false;
  error_backoff_count = 0;
  posted = 0;
  calls = [];
}

start : Session
start = en61107_request_init blank

start-IsSound : IsSound start
unfolding start
start-IsSound = init-IsSound blank refl refl refl

-- A sample is asked for, and a line and a timeout follow.
abbrev events : List Event
events = request false ∷ map received (codes "/KAM\r\n") ++ task inputs ∷ uart_timer ∷ timeout ∷ []

run-IsSound_example : IsSound (run events start)
run-IsSound_example = run-IsSound events start start-IsSound

-- After the request.
asked : Session
asked = step (request false) start

asked-IsSound : IsSound asked
unfolding asked
asked-IsSound = step-IsSound (request false) start start-IsSound

asked_armed : is_armed asked.receive_timeout_timer ≡ true
unfolding asked start step en61107_request_init en61107_request_send en61107_uart_send_en61107_ident
    uart_send
asked_armed = refl

timeouts-IsAsked_example : (n : ℕ) × (1 ≤ n) × (n ≤ 3) × IsAsked (run (replicate n timeout) asked)
timeouts-IsAsked_example = timeouts-IsAsked asked asked-IsSound asked_armed

-- After the first timeout.
repeated : Session
repeated = step timeout asked

repeated_again :
    (is_none repeated.uart_state ≡ false)
    × (repeated.request_num ≡ 2)
    × (repeated.error_backoff_count ≡ 0)
unfolding repeated asked start step en61107_request_init en61107_request_send
    en61107_uart_send_en61107_ident uart_send en61107_receive_timeout_timer_func retransmit
repeated_again = (refl, refl, refl)

-- The answer to the identification is in the FIFO, and the telegram is asked for.
abbrev waiting : Session
waiting = record blank {
  uart_state = state_en61107;
  eod = 3;
  request_num = 1;
  receive_timeout_timer = once 8000;
  fifo = record {
    buffer = codes "/KAM\r\n" ++ replicate 250 0;
    head = 6;
    tail = 0;
    fill_count = 6;
  };
}

waiting-IsWaiting : IsWaiting meter waiting
waiting-IsWaiting = record {
  waiting_state = refl;
  waiting_recovery = refl;
  waiting_eod = refl;
  waiting_etx = refl;
  waiting_posted = refl;
  waiting_fifo = refl;
  waiting_valid = record {
    size = refl;
    tail_in = omega arith;
    fill_in = omega arith;
    head_is = refl;
  };
}

read_serial : parsed_serial read_response ≢ 0
unfolding parsed_serial atoi signed_from digits_from is_space is_digit
read_serial e = omega arith

telegram-IsRead_example : IsRead read_response waiting (
    run
      (map received (2 ∷ (body_of 48 46 entries volume ++ (3 ∷ body_bcc ∷ []))) ++ task inputs ∷ [])
      waiting)
unfolding en61107_response_set_value en61107_response_set_unit text_eq atoi signed_from digits_from
    is_space is_digit
telegram-IsRead_example =
    telegram-IsRead meter 48 46 entries volume inputs waiting body_bcc waiting-IsWaiting
      entries-IsTelegram body_bcc_lem (λ e. omega arith) (omega arith) read_serial

-- The last answer was received.
abbrev answered : Session
answered = record blank {
  serial = 12345678;
  serial_set = true;
  uart_state = state_standard_data_2;
  request_num = 1;
  receive_timeout_timer = once 3000;
  posted = 1;
}

task-IsDelivered_example :
    IsDelivered inputs 12345678 (replicate 1040 0) (step (task inputs) answered)
task-IsDelivered_example =
    task-IsDelivered inputs answered (replicate 1040 0) plain-IsSound refl refl refl
      (λ e. omega arith) (omega arith)

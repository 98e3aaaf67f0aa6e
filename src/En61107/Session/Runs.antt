-- ===== src/En61107/Session/Runs.antt =====
-- Every event keeps a session of user/en61107/en61107_request.c sound.
use meter_logger.Prelude.{
  ℕ, ◌+◌, ◌-◌, ◌%◌, ◌^◌, ◌≤◌, ◌≡◌, ◌≢◌, ◌⊎◌, inl, inr, refl, ap, Bool, true, false, Bool-cases,
  ◌==◌, List, [], ◌∷◌, length, arith,
}
use meter_logger.Prelude.Text.{Text}
use meter_logger.Sdk.{Timer, stopped, once, fire}
use meter_logger.Fifo.Ring.{Fifo}
use meter_logger.En61107.{ParseResult, En61107Response, en61107_frame_l}
use meter_logger.En61107.Telegram.{parse_en61107_frame}
use meter_logger.En61107.Standard.{parse_mc66cde_standard_data_2_frame}
use meter_logger.En61107.Bounds.{AllFit, parse_en61107_frame-AllFit}
use meter_logger.En61107.Columns.{standard_data-AllFit}
use meter_logger.En61107.Session.{
  UartState, state_none, state_standard_data_1, state_standard_data_2, state_en61107_ident,
  state_en61107, state_inst_values, is_none, Session, call, flush, led_blink, drain,
  en61107_receive_timeout_timer_func, en61107_delayed_uart_change_setting_timer_func,
  en61107_is_eod_char, en61107_request_send, en61107_request_init,
}
use meter_logger.En61107.Session.Task.{
  Inputs, message_of, chopped, parsed_serial, after_telegram, sample, notify_ready, send_sample,
  received_telegram, finish, received_in, en61107_received_task, is_armed, uart_receive, Event,
  received, task, timeout, uart_timer, request, step, run,
}
use meter_logger.En61107.Session.Invariant.{
  IsIdle, IsRecovering, IsBusy, IsSteady, IsSound, MaySend, ident-IsSound, en61107-IsSound,
  standard_data_1-IsSound, standard_data_2-IsSound, inst_values-IsSound, retransmit-IsSound,
  recover-IsSound,
}

pub mode-IsBusy : (s : Session) → IsSound s → is_none s.uart_state ≡ false → IsBusy s
mode-IsBusy s h e = elim h.mode [
  | inl i ↦ (let idle : is_none s.uart_state ≡ true = i.idle_state in absurd cc)
  | inr (inl r) ↦ (let idle : is_none s.uart_state ≡ true = r.recovering_state in absurd cc)
  | inr (inr b) ↦ b
]

the_may :
    (s : Session)
    → s.is_in_error_recovery ≡ false
    → (1 ≤ s.request_num) × (s.request_num ≤ 2)
    → IsSteady s
    → MaySend s
the_may s a b c = record { no_recovery = a; num_bounded = b; still_steady = c }

-- With what follows a recovery, or a first request without an answer.
timeout-IsSound :
    (s : Session) (t : Timer)
    → IsRecovering s ⊎ IsBusy s
    → IsSteady s
    → IsSound (en61107_receive_timeout_timer_func (record s { receive_timeout_timer = t }))
unfolding en61107_receive_timeout_timer_func
timeout-IsSound s t (inl r) h =
    let may : MaySend _ = record {
      no_recovery = refl;
      num_bounded = (omega arith, omega arith);
      still_steady = ground (arith, h);
    } in
    rw (r.recovering) (ident-IsSound _ may)
timeout-IsSound s t (inr b) h =
    let next : Session = record (flush (call led_blink s)) {
      receive_timeout_timer = t;
      request_num = (s.request_num + 1) % 2 ^ 8;
    } in
    let steady : IsSteady next = ground (arith, h) in
    let may = λ (k : next.request_num ≤ 2).
      the_may next (ground (arith, b)) (ground (arith, b, k)) steady in
    let again =
      λ (k : next.request_num ≤ 2). retransmit-IsSound s.uart_state next b.busy_state (may k) in
    let over = recover-IsSound next steady in rw (b.busy_recovery) (ground (arith, b, again, over))

send_sample-IsSound :
    (e : Inputs) (m : Text × (ℕ × List ℕ)) (s : Session)
    → s.is_in_error_recovery ≡ false
    → IsSteady s
    → IsSound (send_sample e m s)
unfolding send_sample
send_sample-IsSound e m s r h = ground (arith, h, r)

notify_ready-IsSteady : (e : Inputs) (s : Session) → IsSteady s → IsSteady (notify_ready e s)
unfolding notify_ready
notify_ready-IsSteady e s h = ground (arith, h)

finish-IsSound : (e : Inputs) (s : Session) → IsBusy s → IsSteady s → IsSound (finish e s)
unfolding finish notify_ready
finish-IsSound e s b h =
    send_sample-IsSound e (sample e s.serial s.response) (notify_ready e s) b.busy_recovery
      (notify_ready-IsSteady e s h)

-- A session whose FIFO and response were changed.
with-IsBusy :
    (s : Session) (f : Fifo) (r : En61107Response)
    → IsBusy s
    → IsBusy (record s { fifo = f; response = r })
with-IsBusy s f r b = ground (arith, b)

with-IsSteady :
    (s : Session) (f : Fifo) (r : En61107Response)
    → IsSteady s
    → AllFit r
    → IsSteady (record s { fifo = f; response = r })
with-IsSteady s f r h k = ground (arith, h, k)

-- A busy session whose response was changed may send the next request.
may_send :
    (s : Session) (f : Fifo) (r : En61107Response)
    → IsBusy s
    → IsSteady s
    → AllFit r
    → MaySend (record s { fifo = f; response = r })
may_send s f r b h k = ground (arith, h, b, k)

after_telegram-IsSound :
    (result : ParseResult) (s : Session) → IsBusy s → IsSteady s → IsSound (after_telegram result s)
unfolding after_telegram
after_telegram-IsSound result s b h =
    let first : Session = record s { serial = parsed_serial s.response; serial_set = true } in
    let next = inst_values-IsSound s (ground (arith, b, h)) in
    let first_next =
      λ (k : parsed_serial s.response ≢ 0). inst_values-IsSound first (ground (arith, b, h, k)) in
    let kept : IsSound s = ground (arith, h, b) in
    let retry : IsSound (record s { receive_timeout_timer = once 500 }) = ground (arith, h, b) in
    ground (arith, next, first_next, kept, retry)

received_telegram-IsSound :
    (e : Inputs) (s : Session) → IsBusy s → IsSteady s → IsSound (received_telegram e s)
unfolding received_telegram
received_telegram-IsSound e s b h =
    let d = drain en61107_frame_l s.fifo in
    let r = parse_en61107_frame e.formats e.rid e.word s.response (message_of d.0) (length d.0) in
    let fits =
      parse_en61107_frame-AllFit e.formats e.rid e.word s.response (message_of d.0) (length d.0)
        h.response_fits in
    after_telegram-IsSound r.0 _ (with-IsBusy s d.1 r.1 b) (with-IsSteady s d.1 r.1 h fits)

received_in-IsSound :
    (state : UartState) (e : Inputs) (s : Session)
    → IsSound s
    → s.uart_state ≡ state
    → IsSound (received_in state e s)
unfolding received_in
received_in-IsSound state_none e s h k = h
received_in-IsSound state_en61107_ident e s h k =
    let b = mode-IsBusy s h (ap is_none k) in en61107-IsSound s (ground (arith, b, h.steady))
received_in-IsSound state_en61107 e s h k =
    received_telegram-IsSound e s (mode-IsBusy s h (ap is_none k)) h.steady
received_in-IsSound state_inst_values e s h k =
    let d = drain en61107_frame_l s.fifo in
    let fits =
      standard_data-AllFit e.formats e.word s.response (message_of d.0) h.steady.response_fits in
    standard_data_1-IsSound _ (may_send s d.1 _ (mode-IsBusy s h (ap is_none k)) h.steady fits.2)
received_in-IsSound state_standard_data_1 e s h k =
    let d = drain en61107_frame_l s.fifo in
    let fits =
      standard_data-AllFit e.formats e.word s.response (chopped d.0) h.steady.response_fits in
    standard_data_2-IsSound _ (may_send s d.1 _ (mode-IsBusy s h (ap is_none k)) h.steady fits.0)
received_in-IsSound state_standard_data_2 e s h k =
    let d = drain en61107_frame_l s.fifo in
    let fits =
      standard_data-AllFit e.formats e.word s.response (chopped d.0) h.steady.response_fits in
    let b = mode-IsBusy s h (ap is_none k) in
    let r = parse_mc66cde_standard_data_2_frame s.response (chopped d.0) in
    finish-IsSound e (record s { fifo = d.1; response = r }) (with-IsBusy s d.1 r b)
      (with-IsSteady s d.1 r h.steady fits.1)

-- The interrupt.
uart_receive-IsSound : (c : ℕ) (s : Session) → IsSound s → IsSound (uart_receive c s)
unfolding uart_receive en61107_is_eod_char
uart_receive-IsSound c s h = ground (arith, h)

mode-IsIdle :
    (s : Session)
    → IsSound s
    → s.is_in_error_recovery ≡ false
    → is_none s.uart_state ≡ true
    → IsIdle s
mode-IsIdle s h r n = elim h.mode [
  | inl i ↦ i
  | inr (inl q) ↦ (let on : s.is_in_error_recovery ≡ true = q.recovering in absurd cc)
  | inr (inr b) ↦ (let busy : is_none s.uart_state ≡ false = b.busy_state in absurd cc)
]

request_send-IsSound : (ota : Bool) (s : Session) → IsSound s → IsSound (en61107_request_send ota s)
unfolding en61107_request_send
request_send-IsSound ota s h =
    let asked : Session = record s {
      fifo = (drain 1025 s.fifo).1;
      request_num = (s.request_num + 1) % 2 ^ 8;
    } in
    let sent = λ (i : IsIdle s).
      ident-IsSound asked
        (the_may asked i.idle_recovery (ground (arith, i)) (ground (arith, h.steady))) in
    let idle = λ (r : s.is_in_error_recovery ≡ false) (n : is_none s.uart_state ≡ true).
      mode-IsIdle s h r n in
    ground (arith, h, sent, idle)

pub armed_mode :
    (s : Session) → IsSound s → is_armed s.receive_timeout_timer ≡ true → IsRecovering s ⊎ IsBusy s
armed_mode s h e = elim h.mode [
  | inl i ↦
      (let t : is_armed s.receive_timeout_timer ≡ false = ap is_armed i.idle_timer in absurd cc)
  | inr m ↦ m
]

pub step-IsSound : (e : Event) (s : Session) → IsSound s → IsSound (step e s)
unfolding step en61107_received_task en61107_delayed_uart_change_setting_timer_func
step-IsSound (received c) s h = uart_receive-IsSound c s h
step-IsSound (task e) s h =
    let taken : Session = record s { posted = s.posted - 1 } in
    let sound : IsSound taken = ground (arith, h) in
    let done = received_in-IsSound s.uart_state e taken sound refl in
    elim (Bool-cases (s.posted == 0)) [ inl q ↦ rw q h | inr q ↦ rw q done ]
step-IsSound timeout s h = elim (Bool-cases (is_armed s.receive_timeout_timer)) [
  | inl e ↦ rw e (timeout-IsSound s (fire s.receive_timeout_timer) (armed_mode s h e) h.steady)
  | inr e ↦ rw e h
]
step-IsSound uart_timer s h = elim (Bool-cases (is_armed s.delayed_uart_timer)) [
  | inl e ↦ rw e (ground (arith, h))
  | inr e ↦ rw e h
]
step-IsSound (request ota) s h = request_send-IsSound ota s h

-- Whatever characters arrive, whichever tasks and timers run and however often a sample is asked for: a
-- session stays idle with its timer stopped, in recovery for 5 to 60 seconds, or busy with a request that
-- was sent at most twice and a timeout of at most 8 seconds; a serial number that is set is not 0; and
-- the texts of the response stay within their arrays.
pub run-IsSound : (es : List Event) (s : Session) → IsSound s → IsSound (run es s)
unfolding run
run-IsSound [] s h = h
run-IsSound (e ∷ es) s h = run-IsSound es (step e s) (step-IsSound e s h)

-- The start, before which all variables are 0.
pub init-IsSound :
    (s : Session)
    → s.receive_timeout_timer ≡ stopped
    → s.serial_set ≡ false
    → s.posted ≡ 0
    → IsSound (en61107_request_init s)
unfolding en61107_request_init
init-IsSound s a b c = ground (arith, a, b, c)

-- ===== src/En61107/Session/Telegram.antt =====
-- A telegram from the interrupt to the next request, user/en61107/en61107_request.c with en61107.c.
use meter_logger.Prelude.{
  ℕ, ◌+◌, ◌-◌, ◌%◌, ◌≤◌, ◌≡◌, ◌≢◌, refl, ap, ◌∙◌, append_assoc, true, false, if◌then◌else◌, some,
  List, [], ◌∷◌, ◌++◌, map, length, length-append, replicate, get_elem?, arith,
}
use meter_logger.Prelude.Text.{Text, codes}
use meter_logger.Fifo.Ring.{Fifo, queue_size}
use meter_logger.Fifo.Refine.{IsValid, contents}
use meter_logger.En61107.{Formats, ok, En61107Response, en61107_frame_l}
use meter_logger.En61107.Telegram.{parse_en61107_frame}
use meter_logger.En61107.Bcc.{bcc_of}
use meter_logger.En61107.Parsing.{Entry, store}
use meter_logger.En61107.Reading.{stores}
use meter_logger.En61107.Framing.{framed}
use meter_logger.En61107.Answer.{
  body_of, telegram, IsTelegram, telegram-IsFramed, parse_en61107_frame-telegram,
}
use meter_logger.En61107.Sample.{message_l}
use meter_logger.En61107.Session.{
  state_en61107, state_inst_values, Session, uart0_tx_buffer, drain, uart_send,
  en61107_uart_send_inst_values,
}
use meter_logger.En61107.Session.Task.{
  Inputs, parsed_serial, after_telegram, received_telegram, received_in, en61107_received_task,
  Event, received, task, step, run,
}
use meter_logger.En61107.Session.Received.{puts, puts_lem, drain_lem, received_etx}

-- After a telegram that was parsed: the serial number is set, and the instantaneous values are asked for.
pub record IsRead (response : En61107Response) (before s : Session) : Type 0 where
  pub read_response : s.response ≡ response
  pub read_state : s.uart_state ≡ state_inst_values
  pub read_serial : s.serial ≡ (if before.serial_set then before.serial else parsed_serial response)
  pub read_serial_set : s.serial_set ≡ true
  pub read_posted : s.posted ≡ 0
  pub read_sent : get_elem? s.calls 0 ≡ some (uart0_tx_buffer (codes "/#C"))

after_telegram_lem :
    (s before : Session)
    → s.is_in_error_recovery ≡ false
    → parsed_serial s.response ≢ 0
    → s.posted ≡ 0
    → before.serial_set ≡ s.serial_set
    → before.serial ≡ s.serial
    → IsRead s.response before (after_telegram ok s)
unfolding after_telegram en61107_uart_send_inst_values uart_send
after_telegram_lem s before r n p a b = rw (r) (ground (arith, n, p, a, b))

run-append : (xs ys : List Event) (s : Session) → run (xs ++ ys) s ≡ run ys (run xs s)
unfolding run
run-append [] ys s = refl
run-append (x ∷ xs) ys s = run-append xs ys (step x s)

framed-append :
    (pre body : List ℕ) (bcc : ℕ) (rest : List ℕ)
    → framed pre body bcc [] ++ rest ≡ framed pre body bcc rest
framed-append pre body bcc rest =
    append_assoc pre (2 ∷ (body ++ (3 ∷ bcc ∷ []))) rest
    ∙ ap (λ t. pre ++ (2 ∷ t)) (append_assoc body (3 ∷ bcc ∷ []) rest)

-- What a telegram leaves in the response.
abbrev pub response_of :
    Formats → Text → ℕ → Text → List Entry → Entry → En61107Response → En61107Response
response_of f rid word meter es last r =
    (store f last (
      stores f es (record {
        response = record r { meter_type = meter };
        rid = rid;
        rid_value_unit = word;
      }))).response

-- The parser on a telegram in the array of the task.
parse_message :
    {meter : Text} {a b : ℕ} {es : List Entry} {last : Entry} (f : Formats) (rid : Text) (word : ℕ)
    (r : En61107Response) (bcc : ℕ) (zeros : List ℕ)
    → IsTelegram meter a b es last
    → bcc % 128 ≡ bcc_of (body_of a b es last)
    → let t = telegram meter a b es last bcc [] in
      parse_en61107_frame f rid word r (t ++ zeros) (length t)
      ≡ (ok, response_of f rid word meter es last r)
parse_message {meter} {a} {b} {es} {last} f rid word r bcc zeros h sum =
    let hd = 47 ∷ (meter ++ (13 ∷ 10 ∷ [])) in
    let bd = body_of a b es last in
    let counted : length (telegram meter a b es last bcc []) ≡ length meter + length bd + 6 =
      omega (
        arith,
        length-append hd (2 ∷ (bd ++ (3 ∷ bcc ∷ []))),
        length-append bd (3 ∷ bcc ∷ []),
        length-append meter (13 ∷ 10 ∷ []),
      ) in
    rw (framed-append hd bd bcc zeros, counted)
      (parse_en61107_frame-telegram meter a b es last f rid word r bcc zeros h sum)

-- The task for a telegram that stands in the FIFO.
received_telegram_lem :
    {meter : Text} {a b : ℕ} {es : List Entry} {last : Entry} (e : Inputs) (s before : Session)
    (bcc : ℕ)
    → IsTelegram meter a b es last
    → bcc % 128 ≡ bcc_of (body_of a b es last)
    → contents s.fifo ≡ telegram meter a b es last bcc []
    → IsValid s.fifo
    → length (telegram meter a b es last bcc []) ≤ en61107_frame_l
    → s.is_in_error_recovery ≡ false
    → s.posted ≡ 0
    → before.serial_set ≡ s.serial_set
    → before.serial ≡ s.serial
    → parsed_serial (response_of e.formats e.rid e.word meter es last s.response) ≢ 0
    → IsRead
        (response_of e.formats e.rid e.word meter es last s.response)
        before
        (received_telegram e s)
unfolding received_telegram
received_telegram_lem {meter} {a} {b} {es} {last} e s before bcc h sum c v size r p x y n =
    let t = telegram meter a b es last bcc [] in
    let drained : (drain en61107_frame_l s.fifo).0 ≡ t =
      drain_lem en61107_frame_l s.fifo v (rw c size) ∙ c in
    let parsed =
      parse_message e.formats e.rid e.word s.response bcc (replicate (message_l - length t) 0) h
        sum in
    rw (received_telegram, drained, parsed)
      (after_telegram_lem
        (record s {
          fifo = (drain en61107_frame_l s.fifo).1;
          response = response_of e.formats e.rid e.word meter es last s.response;
        })
        before r n p x y)

-- A session that waits for a telegram, whose FIFO holds the answer to the identification.
pub record IsWaiting (meter : Text) (s : Session) : Type 0 where
  pub waiting_state : s.uart_state ≡ state_en61107
  pub waiting_recovery : s.is_in_error_recovery ≡ false
  pub waiting_eod : s.eod ≡ 3
  pub waiting_etx : s.etx_received ≡ false
  pub waiting_posted : s.posted ≡ 0
  pub waiting_fifo : contents s.fifo ≡ 47 ∷ (meter ++ (13 ∷ 10 ∷ []))
  pub waiting_valid : IsValid s.fifo

step_task :
    (e : Inputs) (s : Session) (f : Fifo)
    → s.posted ≡ 0
    → s.uart_state ≡ state_en61107
    → step (task e) (record s { fifo = f; posted = s.posted + 1 })
      ≡ received_telegram e (record s { fifo = f; posted = 0 })
unfolding step en61107_received_task received_in
step_task e s f p u = rw p (ap (λ state. received_in state e (record s { fifo = f; posted = 0 })) u)

-- The session waits for the telegram after the answer to the identification. When the characters of a telegram from
-- STX on arrive one by one and one task runs, the response has the energy of 6.8, the volume of 6.26, the hours of
-- 6.31 and the customer number, the serial number is set, and the next request is sent. The telegram with the answer to
-- the identification fits the FIFO, the character of its check sum is not 3, and the serial number read is not 0.
pub telegram-IsRead :
    (meter : Text) (a b : ℕ) (es : List Entry) (last : Entry) (e : Inputs) (s : Session) (bcc : ℕ)
    → IsWaiting meter s
    → IsTelegram meter a b es last
    → bcc % 128 ≡ bcc_of (body_of a b es last)
    → bcc ≢ 3
    → length (telegram meter a b es last bcc []) ≤ queue_size
    → parsed_serial (response_of e.formats e.rid e.word meter es last s.response) ≢ 0
    → IsRead
        (response_of e.formats e.rid e.word meter es last s.response)
        s
        (run (map received (2 ∷ (body_of a b es last ++ (3 ∷ bcc ∷ []))) ++ task e ∷ []) s)
unfolding run
telegram-IsRead meter a b es last e s bcc w h sum n3 size n =
    let hd = 47 ∷ (meter ++ (13 ∷ 10 ∷ [])) in
    let cs = 2 ∷ body_of a b es last in
    let sent = cs ++ (3 ∷ bcc ∷ []) in
    let got =
      received_etx cs bcc s ((λ e. omega arith), (telegram-IsFramed h).body_lacks.1) n3
        w.waiting_eod w.waiting_etx (omega (arith, w.waiting_posted)) in
    let fits : length (contents s.fifo) + length sent ≤ queue_size =
      omega (arith, ap length w.waiting_fifo, length-append hd sent, size) in
    let held = puts_lem sent s.fifo w.waiting_valid fits in
    let whole : contents (puts s.fifo sent) ≡ telegram meter a b es last bcc [] =
      held.0 ∙ ap (λ q. q ++ sent) w.waiting_fifo in
    let ready : Session = record s { fifo = puts s.fifo sent; posted = 0 } in
    let done =
      received_telegram_lem e ready s bcc h sum whole held.1 (omega (arith, size))
        w.waiting_recovery refl refl refl n in
    let taken : step (task e) (record s { fifo = puts s.fifo sent; posted = s.posted + 1 })
        ≡ received_telegram e ready =
      step_task e s (puts s.fifo sent) w.waiting_posted w.waiting_state in
    rw (run-append (map received sent) (task e ∷ []) s, got, taken) done

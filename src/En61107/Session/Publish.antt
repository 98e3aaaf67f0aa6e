-- ===== src/En61107/Session/Publish.antt =====
-- The sample that the task of user/en61107/en61107_request.c publishes after the last answer of the meter.
use meter_logger.Prelude.{
  ℕ, ◌+◌, ◌-◌, ◌≤◌, ◌<◌, ◌≡◌, ◌≢◌, refl, ap, true, false, ◌==◌, Option, some, none, List, [], ◌∷◌,
  ◌++◌, length, length-append, length-take, length-replicate, take, replicate, arith,
}
use meter_logger.Prelude.Text.{Text}
use meter_logger.Sdk.{stopped}
use meter_logger.Crypto.{Primitives, Keys, encrypt_aes_hmac_combined, decrypt_aes_hmac_combined}
use meter_logger.Crypto.Laws.{IsSound}
use meter_logger.Crypto.RoundTrip.{decrypt-encrypt}
use meter_logger.En61107.{En61107Response, en61107_frame_l}
use meter_logger.En61107.Sample.{message_l, sample_topic, sample_text, append_all, key_values}
use meter_logger.En61107.Standard.{parse_mc66cde_standard_data_2_frame}
use meter_logger.En61107.Session.{
  state_standard_data_2, is_none, Session, Call, led_blink, meter_is_ready, meter_sent_data,
  uart0_tx_buffer, mqtt_publish, drain,
}
use meter_logger.En61107.Session.Task.{
  Inputs, chopped, sample, notify_ready, send_sample, finish, received_in, en61107_received_task,
  task, step,
}

-- What was published last.
abbrev pub published : List Call → Option (Text × List ℕ)
published [] = none
published (led_blink ∷ cs) = published cs
published (meter_is_ready ∷ cs) = published cs
published (meter_sent_data ∷ cs) = published cs
published (uart0_tx_buffer text ∷ cs) = published cs
published (mqtt_publish topic message ∷ cs) = some (topic, message)

sample_text_fits :
    (e : Inputs) (r : En61107Response)
    → length (sample_text e.formats e.heap r ++ 0 ∷ []) ≤ en61107_frame_l
unfolding sample_text
sample_text_fits e r =
    let all = append_all [] (key_values e.formats e.heap r) in
    omega (
      arith,
      length-append (take (en61107_frame_l - 1) all) (0 ∷ []),
      length-take (en61107_frame_l - 1) all,
    )

-- What the end of the last case leaves, when the sample has a message.
pub record IsPublished (m : Text × (ℕ × List ℕ)) (s : Session) : Type 0 where
  pub published_message : published s.calls ≡ some (m.0, take m.1.0 m.1.1)
  pub published_state : is_none s.uart_state ≡ true
  pub published_num : s.request_num ≡ 0
  pub published_timer : s.receive_timeout_timer ≡ stopped
  pub published_backoff : s.error_backoff_count ≡ 0

send_sample_lem :
    (e : Inputs) (m : Text × (ℕ × List ℕ)) (s : Session)
    → e.client_ready ≡ true
    → 1 < m.1.0
    → s.error_backoff_count ≡ 0
    → IsPublished m (send_sample e m s)
unfolding send_sample
send_sample_lem e m s c n b = ground (arith, c, n, b)

-- The length of an encrypted message.
encrypted_length :
    (p : Primitives) (k : Keys) (iv dst topic m : List ℕ)
    → 1 < (encrypt_aes_hmac_combined p k iv dst topic m).0
unfolding encrypt_aes_hmac_combined
encrypted_length p k iv dst topic m = omega arith

-- A sample was published under the topic of the meter and the time, in a message that fits its buffer
-- and that decrypts into a buffer `dst` to the text of the sample with its NUL; the session is idle.
pub record IsDelivered (e : Inputs) (serial : ℕ) (dst : List ℕ) (s : Session) : Type 0 where
  pub message : List ℕ
  pub delivered :
      let topic = sample_topic e.formats serial e.unix_time in
      let text = sample_text e.formats e.heap s.response ++ 0 ∷ [] in
      let d = decrypt_aes_hmac_combined e.primitives e.keys dst topic message in
      (published s.calls ≡ some (topic, message))
      × (length message ≤ message_l)
      × (d.0 ≡ length text)
      × (take d.0 d.1 ≡ text)
  pub delivered_idle :
      (is_none s.uart_state ≡ true)
      × (s.request_num ≡ 0)
      × (s.receive_timeout_timer ≡ stopped)
      × (s.error_backoff_count ≡ 0)

send_sample-IsDelivered :
    (e : Inputs) (s : Session) (dst : List ℕ)
    → IsSound e.primitives
    → length e.iv ≡ 16
    → e.client_ready ≡ true
    → s.error_backoff_count ≡ 0
    → en61107_frame_l + 16 ≤ length dst
    → IsDelivered e s.serial dst (send_sample e (sample e s.serial s.response) s)
unfolding sample send_sample
send_sample-IsDelivered e s dst sound iv c b size =
    let topic = sample_topic e.formats s.serial e.unix_time in
    let text = sample_text e.formats e.heap s.response ++ 0 ∷ [] in
    let nul : ℕ = 0 in
    let zeros = replicate message_l nul in
    let fits = sample_text_fits e s.response in
    let m = encrypt_aes_hmac_combined e.primitives e.keys e.iv zeros topic text in
    let long = encrypted_length e.primitives e.keys e.iv zeros topic text in
    let back =
      decrypt-encrypt e.primitives e.keys e.iv zeros dst topic text sound iv
        (omega (arith, fits, length-replicate message_l nul)) (omega (arith, fits, size)) in
    let sent = send_sample_lem e (topic, m) s c long b in
    record {
      message = take m.0 m.1;
      delivered = (
        sent.published_message,
        omega (arith, length-take m.0 m.1, back.0, fits),
        back.1,
        back.2,
      );
      delivered_idle =
          (sent.published_state, sent.published_num, sent.published_timer, sent.published_backoff);
    }

-- The session before the sample is sent.
abbrev answered : Inputs → Session → Session
answered e s =
    let d = drain en61107_frame_l s.fifo in
    notify_ready e (record s {
      posted = s.posted - 1;
      fifo = d.1;
      response = parse_mc66cde_standard_data_2_frame s.response (chopped d.0);
    })

step_last :
    (e : Inputs) (s : Session)
    → s.uart_state ≡ state_standard_data_2
    → s.posted ≢ 0
    → let q = answered e s in step (task e) s ≡ send_sample e (sample e q.serial q.response) q
unfolding step en61107_received_task received_in finish notify_ready
step_last e s u p =
    let some_posted : (s.posted == 0) ≡ false = ground (arith, p) in
    rw some_posted (ap (λ state. received_in state e (record s { posted = s.posted - 1 })) u)

-- When the last answer of the meter is in the FIFO, its task was posted and the MQTT client with its buffers
-- is ready, the primitives are sound and the initial vector has 16 bytes, the task delivers the sample: it is published in a message that fits its buffer and that decrypts, with
-- the same keys and into a buffer that is large enough, to the text of the sample; and the session is idle again, with its
-- timer stopped and the backoff reset.
pub task-IsDelivered :
    (e : Inputs) (s : Session) (dst : List ℕ)
    → IsSound e.primitives
    → length e.iv ≡ 16
    → e.client_ready ≡ true
    → s.uart_state ≡ state_standard_data_2
    → s.posted ≢ 0
    → en61107_frame_l + 16 ≤ length dst
    → IsDelivered e s.serial dst (step (task e) s)
unfolding notify_ready
task-IsDelivered e s dst sound iv c u p size =
    rw (step_last e s u p) (send_sample-IsDelivered e (answered e s) dst sound iv c refl size)

-- ===== src/Kmp/Session/Deliver.antt =====
-- From a reply of the meter in the FIFO of user/kamstrup/kmp_request.c to the published sample.
use meter_logger.Prelude.{
  ℕ, zero, suc, ◌+◌, ◌-◌, ◌≤◌, ◌<◌, ◌≡◌, ◌≢◌, refl, ap, ◌∙◌, Bool, true, false, Option, none, some,
  List, [], ◌∷◌, ◌++◌, length, length-append, length-take, length-replicate, take, take-append,
  replicate, copy_to, All, if◌then◌else◌, ltb, ◌==◌, arith,
}
use meter_logger.Prelude.Text.{Text}
use meter_logger.Fifo.Ring.{Fifo, queue_size, kmp_fifo_get, en61107_fifo_get}
use meter_logger.Fifo.Refine.{IsValid, contents}
use meter_logger.Crypto.{encrypt_aes_hmac_combined, decrypt_aes_hmac_combined}
use meter_logger.Crypto.Laws.{IsSound}
use meter_logger.Crypto.RoundTrip.{decrypt-encrypt}
use meter_logger.En61107.Session.{drain}
use meter_logger.En61107.Session.Received.{drain_lem}
use meter_logger.Kmp.Frame.{frame_l}
use meter_logger.Kmp.Contents.{Holds}
use meter_logger.Kmp.Wire.{wire, crc_bytes}
use meter_logger.Kmp.Response.{Register, Response, no_response, decoded, kmp_decode_frame}
use meter_logger.Kmp.Decoding.{unstuffed}
use meter_logger.Kmp.Registers.{Fits}
use meter_logger.Kmp.Replies.{buffer}
use meter_logger.Kmp.Meter.{register_reply, decode_nine}
use meter_logger.Kmp.Session.Shown.{reply_text, message_text-reply_text}
use meter_logger.Kmp.Session.{
  KmpSession, KmpInputs, Call, meter_is_ready, meter_sent_data, uart0_tx_buffer, mqtt_publish,
  kmp_drain, kmp_topic, kmp_sample, message_text, energy_of, notify_meter, publish, received_frame,
  received_outcome, kmp_received_task, task, kmp_step,
}

-- What was published last.
abbrev pub kmp_published : List Call → Option (Text × List ℕ)
kmp_published [] = none
kmp_published (meter_is_ready ∷ cs) = kmp_published cs
kmp_published (meter_sent_data ∷ cs) = kmp_published cs
kmp_published (uart0_tx_buffer bytes ∷ cs) = kmp_published cs
kmp_published (mqtt_publish topic message ∷ cs) = some (topic, message)

-- A text was published under the topic of the meter and the time, in a message that fits its buffer and
-- that decrypts into a buffer `dst` to as much of the text as the buffer for it holds, with its NUL.
pub record IsSampled (e : KmpInputs) (serial : ℕ) (text : Text) (dst : List ℕ) (s : KmpSession)
    : Type 0 where
  pub message : List ℕ
  pub sampled :
      let topic = kmp_topic e.formats serial e.unix_time in
      let cleartext = take (frame_l - 1) text ++ 0 ∷ [] in
      let d = decrypt_aes_hmac_combined e.primitives e.keys dst topic message in
      (kmp_published s.calls ≡ some (topic, message))
      × (length message ≤ frame_l + 64)
      × (d.0 ≡ length cleartext)
      × (take d.0 d.1 ≡ cleartext)
  pub sampled_sent : s.kmp_requests_sent ≡ 0

encrypted_length :
    (e : KmpInputs) (topic m : List ℕ) (dst : List ℕ)
    → 1 < (encrypt_aes_hmac_combined e.primitives e.keys e.iv dst topic m).0
unfolding encrypt_aes_hmac_combined
encrypted_length e topic m dst = omega arith

published_after :
    (b : Bool) (cs : List Call)
    → kmp_published (if b then meter_sent_data ∷ cs else cs) ≡ kmp_published cs
published_after true cs = refl
published_after false cs = refl

publish-IsSampled :
    (e : KmpInputs) (text : Text) (s : KmpSession) (dst : List ℕ)
    → IsSound e.primitives
    → length e.iv ≡ 16
    → e.mqtt_client ≡ true
    → s.kmp_serial ≢ 0
    → frame_l + 16 ≤ length dst
    → IsSampled e s.kmp_serial text dst (publish e text s)
unfolding publish kmp_sample
publish-IsSampled e text s dst sound iv c n size =
    let nul : ℕ = 0 in
    let topic = kmp_topic e.formats s.kmp_serial e.unix_time in
    let cleartext = take (frame_l - 1) text ++ nul ∷ [] in
    let fits : length cleartext ≤ frame_l =
      omega (
        arith,
        length-append (take (frame_l - 1) text) (nul ∷ []),
        length-take (frame_l - 1) text,
      ) in
    let zeros = replicate (frame_l + 64) nul in
    let m = encrypt_aes_hmac_combined e.primitives e.keys e.iv zeros topic cleartext in
    let back =
      decrypt-encrypt e.primitives e.keys e.iv zeros dst topic cleartext sound iv
        (omega (arith, fits, length-replicate (frame_l + 64) nul)) (omega (arith, fits, size)) in
    let known : (s.kmp_serial == 0) ≡ false = ground (arith, n) in
    let long : ltb 1 m.0 ≡ true = ground (arith, encrypted_length e topic cleartext zeros) in
    record {
      message = take m.0 m.1;
      sampled = (
        rw (c, known, long) (published_after e.sent_cb_set _),
        omega (arith, length-take m.0 m.1, back.0, fits),
        back.1,
        back.2,
      );
      sampled_sent = refl;
    }

kmp_drain-drain : (n : ℕ) (f : Fifo) → kmp_drain n f ≡ drain n f
unfolding kmp_drain drain kmp_fifo_get en61107_fifo_get
kmp_drain-drain zero f = refl
kmp_drain-drain (suc n) f =
    let r = kmp_fifo_get f in
    ap
      (λ (rest : List ℕ × Fifo). elim r.0 as (λ x. List ℕ × Fifo) [
        | none ↦ ([], r.1)
        | some c ↦ (c ∷ rest.0, rest.1)
      ])
      (kmp_drain-drain n r.1)

-- The task for bytes of the FIFO that are a reply with registers.
decoded_reply :
    (d : ℕ) (bytes : List ℕ) (start dst : ℕ) (rs : List Register)
    → bytes ≡ wire start (register_reply dst rs ++ crc_bytes (register_reply dst rs))
    → length bytes ≤ queue_size
    → All Fits rs
    → 1 ≤ length rs
    → length rs ≤ 8
    → let frame = bytes ++ replicate (frame_l + 64 - length bytes) 0 in
      kmp_decode_frame d frame (length bytes)
      ≡ some (
        decoded,
        record no_response { register_list = copy_to no_response.register_list 0 rs },
        unstuffed (buffer d frame (length bytes)),
      )
decoded_reply d bytes start dst rs e size f p q =
    let nul : ℕ = 0 in
    let zeros = replicate (frame_l + 64 - length bytes) nul in
    let holds : Holds (buffer d (bytes ++ zeros) (length bytes))
        (wire start (register_reply dst rs ++ crc_bytes (register_reply dst rs))) =
      record {
        room = omega (
          arith,
          length-append bytes zeros,
          length-replicate (frame_l + 64 - length bytes) nul,
          size,
        );
        size = ap length e;
        bytes = take-append bytes zeros (length bytes) refl ∙ e;
      } in
    decode_nine d (bytes ++ zeros) (length bytes) start dst rs holds f p q

-- A reply with one to eight registers and its CRC stands in the FIFO and is not longer than it, its task is posted,
-- the serial number is known, the MQTT client is ready, the primitives are sound and the initial vector has 16 bytes.
-- If the text of the sample can be made from these registers in their order, each value under its name, then the task
-- publishes a message that fits its buffer and that decrypts with the same keys, into a buffer that is large
-- enough, to this text, cut to 1023 characters.
pub kmp_task-IsSampled :
    (e : KmpInputs) (s : KmpSession) (start address : ℕ) (rs : List Register) (text : Text)
    (dst : List ℕ)
    → IsSound e.primitives
    → length e.iv ≡ 16
    → e.mqtt_client ≡ true
    → s.kmp_serial ≢ 0
    → s.posted ≢ 0
    → IsValid s.fifo
    → contents s.fifo
      ≡ wire start (register_reply address rs ++ crc_bytes (register_reply address rs))
    → length (contents s.fifo) ≤ queue_size
    → All Fits rs
    → 1 ≤ length rs
    → length rs ≤ 8
    → reply_text e.formats e.heap (copy_to no_response.register_list 0 rs) ≡ some text
    → frame_l + 16 ≤ length dst
    → (q : KmpSession) × (kmp_step (task e) s ≡ some q) × IsSampled e s.kmp_serial text dst q
unfolding kmp_step kmp_received_task received_outcome received_frame notify_meter
kmp_task-IsSampled e s start address rs text dst sound iv c n posted v held size f p q shown room =
    let some_posted : (s.posted == 0) ≡ false = ground (arith, posted) in
    let drained : (kmp_drain frame_l s.fifo).0 ≡ contents s.fifo =
      ap (λ r. r.0) (kmp_drain-drain frame_l s.fifo)
      ∙ drain_lem frame_l s.fifo v (omega (arith, size)) in
    let bytes = contents s.fifo in
    let response : Response = record no_response {
      register_list = copy_to no_response.register_list 0 rs;
    } in
    let shown' : message_text e.formats e.heap response ≡ some text =
      message_text-reply_text e.formats e.heap response ∙ shown in
    let frame = bytes ++ replicate (frame_l + 64 - length bytes) 0 in
    let after : KmpSession = record s {
      posted = s.posted - 1;
      fifo = (kmp_drain frame_l s.fifo).1;
      data_length = (unstuffed (buffer s.data_length frame (length bytes))).data_length;
    } in
    let before : KmpSession = record (notify_meter e after) {
      e1_kwh = energy_of e.formats e.value_string response s.e1_kwh;
    } in
    let reply = decoded_reply s.data_length bytes start address rs held size f p q in
    (
      publish e text before,
      rw (some_posted, drained, reply, shown') refl,
      publish-IsSampled e text before dst sound iv c n room,
    )

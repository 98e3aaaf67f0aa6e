-- ===== src/Kmp/Session/Silence.antt =====
-- The counter of user/kamstrup/kmp_request.c, and what its timers send.
use meter_logger.Prelude.{
  ◌+◌, ◌-◌, ◌≡◌, refl, sym, ◌∙◌, subst, Bool, Bool-cases, Option, Option-cases, none, some, inl,
  inr, ◌==◌, List, [], ◌∷◌, length, replicate, ◌++◌, arith,
}
use meter_logger.Fifo.Ring.{Fifo}
use meter_logger.Kmp.Frame.{frame_l}
use meter_logger.Kmp.Response.{Response, Outcome, kmp_decode_frame}
use meter_logger.Kmp.Session.{
  KmpSession, KmpInputs, kmp_request_send, kmp_get_serial_timer_func, kmp_get_register_timer_func,
  kmp_receive_timeout_timer_func, kmp_drain, message_text, notify_meter, publish, received_frame,
  is_decoded, received_outcome, kmp_received_task, kmp_receive, KmpEvent, received, task,
  serial_timer, register_timer, timeout, request, kmp_step, kmp_steps,
}

-- The counter is 0 in what is left, unless there was a write past an array.
Uncounted : Option KmpSession → Type 0
Uncounted none = Unit {0}
Uncounted (some s) = s.kmp_requests_sent ≡ 0

received_frame-Uncounted :
    (e : KmpInputs) (r : Response) (s : KmpSession)
    → s.kmp_requests_sent ≡ 0
    → Uncounted (received_frame e r s)
unfolding received_frame publish notify_meter Uncounted
received_frame-Uncounted e r s h = elim (Bool-cases (r.serial == 0)) [
  | inl q ↦ elim (Option-cases (message_text e.formats e.heap r)) [
    | inl n ↦ rw (q, n) _
    | inr t ↦ rw (q, t.1) refl
  ]
  | inr q ↦ rw q h
]

outcome-Uncounted :
    (e : KmpInputs) (f : Fifo) (o : Option Outcome) (s : KmpSession)
    → s.kmp_requests_sent ≡ 0
    → Uncounted (received_outcome e f o s)
unfolding received_outcome Uncounted
outcome-Uncounted e f none s h = _
outcome-Uncounted e f (some o) s h = elim (Bool-cases (is_decoded o.0)) [
  | inl q ↦ rw q (received_frame-Uncounted e o.1 _ h)
  | inr q ↦ rw q h
]

task-Uncounted :
    (e : KmpInputs) (s : KmpSession) → s.kmp_requests_sent ≡ 0 → Uncounted (kmp_received_task e s)
unfolding kmp_received_task
task-Uncounted e s h =
    let d = kmp_drain frame_l s.fifo in
    let message = d.0 ++ replicate (frame_l + 64 - length d.0) 0 in
    outcome-Uncounted e d.1 (kmp_decode_frame s.data_length message (length d.0)) s h

Uncounted-some :
    (o : Option KmpSession) (s : KmpSession) → o ≡ some s → Uncounted o → s.kmp_requests_sent ≡ 0
unfolding Uncounted
Uncounted-some o s e h = subst Uncounted e h

step-Uncounted :
    (e : KmpEvent) (s : KmpSession) → s.kmp_requests_sent ≡ 0 → Uncounted (kmp_step e s)
unfolding kmp_step Uncounted kmp_receive kmp_get_serial_timer_func kmp_get_register_timer_func
    kmp_receive_timeout_timer_func kmp_request_send
step-Uncounted (received c) s h = ground (arith, h)
step-Uncounted (task e) s h =
    let done = task-Uncounted e (record s { posted = s.posted - 1 }) h in
    elim (Bool-cases (s.posted == 0)) [ inl q ↦ rw q h | inr q ↦ rw q done ]
step-Uncounted serial_timer s h = ground (arith, h)
step-Uncounted register_timer s h = ground (arith, h)
step-Uncounted (timeout ota) s h = ground (arith, h)
step-Uncounted (request ota) s h = ground (arith, h)

-- In whatever state a run from a start with the counter at 0 has led to, the counter is 0, so that the handler
-- of the timeout sends nothing again.
pub timeout_silent :
    (es : List KmpEvent) (s q : KmpSession) (ota : Bool)
    → s.kmp_requests_sent ≡ 0
    → kmp_steps es s ≡ some q
    → (q.kmp_requests_sent ≡ 0) × (kmp_receive_timeout_timer_func ota q ≡ q)
unfolding kmp_steps kmp_receive_timeout_timer_func
timeout_silent [] s q ota h e = let same : s ≡ q = ground (arith, e) in rw (← same) (h, rw h refl)
timeout_silent (v ∷ es) s q ota h e = elim (Option-cases (kmp_step v s)) [
  | inl n ↦ (let nothing : kmp_steps (v ∷ es) s ≡ none = rw (kmp_steps, n) refl in absurd (cc))
  | inr t ↦
      (let next : kmp_steps (v ∷ es) s ≡ kmp_steps es t.0 = rw (kmp_steps, t.1) refl in
        let counted = Uncounted-some (kmp_step v s) t.0 t.1 (step-Uncounted v s h) in
        timeout_silent es t.0 q ota counted (sym next ∙ e))
]

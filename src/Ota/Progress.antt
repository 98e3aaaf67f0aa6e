-- ===== src/Ota/Progress.antt =====
-- An upgrade of user/ota.c goes on: a timer is always armed for its next step, or it has ended.
use meter_logger.Prelude.{
  ◌+◌, ◌≤◌, ◌≡◌, refl, Bool, true, false, not, ◌&&◌, if_all, if_either, ltb, leb, arith,
}
use meter_logger.Prelude.Text.{Text}
use meter_logger.Sdk.{Timer, stopped, once, every, fire}
use meter_logger.Ota.State.{
  DnsAnswer, dns_known, dns_in_progress, dns_failed, OtaEnv, Ota, ota_max_retries, is_active,
  ota_cleanup_timers, ota_fail_update, ota_incomplete_http_response,
}
use meter_logger.Ota.Retry.{
  RetryReason, failure_other, failure_dns, failure_tcp, failure_incomplete_http_response,
  note_failure, retry_later, give_up, ota_trigger_reconnect, reason_of, timed_out,
  ota_timeout_timer_cb, is_idle, progress_of, ota_progress_timer_cb, ota_tcp_recon_cb,
}
use meter_logger.Ota.Connect.{
  request_sent, ota_tcp_connect_cb, connection_started, address_found, ota_dns_found_cb,
  lookup_answered, start_lookup, ota_retry_timer_cb,
}

abbrev pub IsArmed : Timer → Type 0
IsArmed stopped = ⊥
IsArmed (once ms) = Unit {0}
IsArmed (every ms) = Unit {0}

-- While an upgrade is in progress, the timer for another attempt is armed if one is pending, and else the timeout.
abbrev pub Continues : Bool → Bool → Timer → Timer → Type 0
Continues false pending timeout retry = Unit {0}
Continues true true timeout retry = IsArmed retry
Continues true false timeout retry = IsArmed timeout

-- There are at most five further attempts.
pub record GoesOn (s : Ota) : Type 0 where
  pub continues :
      Continues s.ota_in_progress s.ota_retry_pending s.ota_timeout_timer s.ota_retry_timer
  pub retries : s.ota_retry_count ≤ ota_max_retries

pub on :
    (s : Ota)
    → Continues s.ota_in_progress s.ota_retry_pending s.ota_timeout_timer s.ota_retry_timer
    → s.ota_retry_count ≤ ota_max_retries
    → GoesOn s
on s c r = record { continues = c; retries = r }

-- A session that does not hear the network needs no timeout.
idle-Continues :
    (b pending : Bool) (timeout timeout' retry : Timer)
    → (b && not pending) ≡ false
    → Continues b pending timeout retry
    → Continues b pending timeout' retry
idle-Continues false pending timeout timeout' retry h c = _
idle-Continues true true timeout timeout' retry h c = c
idle-Continues true false timeout timeout' retry h c = absurd (cc (h))

pub fail-GoesOn :
    (status : Text) (b : Bool) (s : Ota)
    → s.ota_retry_count ≤ ota_max_retries
    → GoesOn (ota_fail_update status b s)
unfolding ota_fail_update ota_cleanup_timers
fail-GoesOn status b s r = if_all GoesOn b (on _ _ r) (on _ _ r)

note_failure_count :
    (r : RetryReason) (s : Ota) → (note_failure r s).ota_retry_count ≡ s.ota_retry_count
note_failure_count failure_other s = refl
note_failure_count failure_dns s = refl
note_failure_count failure_tcp s = refl
note_failure_count failure_incomplete_http_response s = refl

note_failure_progress :
    (r : RetryReason) (s : Ota) → (note_failure r s).ota_in_progress ≡ s.ota_in_progress
note_failure_progress failure_other s = refl
note_failure_progress failure_dns s = refl
note_failure_progress failure_tcp s = refl
note_failure_progress failure_incomplete_http_response s = refl

retry_later-GoesOn :
    (e : OtaEnv) (r : RetryReason) (s : Ota)
    → s.ota_in_progress ≡ true
    → s.ota_retry_count + 1 ≤ ota_max_retries
    → GoesOn (retry_later e r s)
unfolding retry_later
retry_later-GoesOn e r s p n = on _ (rw p _) n

give_up-GoesOn : (s : Ota) → s.ota_retry_count ≤ ota_max_retries → GoesOn (give_up s)
unfolding give_up ota_cleanup_timers
give_up-GoesOn s n = on _ _ n

-- A failure of the network leads to another attempt or to the end, whatever the timers are.
pub reconnect-GoesOn :
    (e : OtaEnv) (r : RetryReason) (s : Ota)
    → is_active s ≡ true
    → s.ota_retry_count ≤ ota_max_retries
    → GoesOn (ota_trigger_reconnect e r s)
unfolding ota_trigger_reconnect
reconnect-GoesOn e r s active n =
    let count = note_failure_count r s in
    let progress = note_failure_progress r s in
    if_either GoesOn (is_active s)
      (λ a.
        if_either GoesOn (ltb s.ota_retry_count ota_max_retries)
          (λ l.
            retry_later-GoesOn e r _ (ground (arith, progress, active)) (ground (arith, l, count)))
          (λ l. give_up-GoesOn _ (omega (arith, count, n))))
      (λ a. absurd (cc (a, active)))

timed_out-GoesOn :
    (e : OtaEnv) (b : Bool) (s : Ota)
    → is_active s ≡ true
    → s.ota_retry_count ≤ ota_max_retries
    → GoesOn (timed_out e b s)
unfolding timed_out
timed_out-GoesOn e true s a n = reconnect-GoesOn e failure_dns _ a n
timed_out-GoesOn e false s a n =
    let tried = reconnect-GoesOn e (reason_of (ota_incomplete_http_response s)) _ a n in
    on _ tried.continues tried.retries

-- The timeout, which is armed no more.
pub timeout-GoesOn :
    (e : OtaEnv) (s : Ota)
    → GoesOn s
    → GoesOn (ota_timeout_timer_cb e (record s { ota_timeout_timer = fire s.ota_timeout_timer }))
unfolding ota_timeout_timer_cb
timeout-GoesOn e s h =
    if_either GoesOn (is_active s) (λ a. timed_out-GoesOn e s.ota_dns_pending _ a h.retries)
      (λ a.
        on _
          (idle-Continues s.ota_in_progress s.ota_retry_pending _ _ s.ota_retry_timer a h.continues)
          h.retries)

pub progress-GoesOn : (e : OtaEnv) (s : Ota) → GoesOn s → GoesOn (ota_progress_timer_cb e s)
unfolding ota_progress_timer_cb
progress-GoesOn e s h = if_all GoesOn (is_idle s) h (
    if_all GoesOn (leb (progress_of s) s.ota_last_reported_progress) h (on _ h.continues h.retries))

pub recon-GoesOn : (e : OtaEnv) (s : Ota) → GoesOn s → GoesOn (ota_tcp_recon_cb e s)
unfolding ota_tcp_recon_cb
recon-GoesOn e s h =
    if_either GoesOn (is_active s) (λ a. reconnect-GoesOn e _ _ a h.retries) (λ a. h)

request_sent-GoesOn :
    (e : OtaEnv) (b : Bool) (s : Ota) → is_active s ≡ true → GoesOn s → GoesOn (request_sent e b s)
unfolding request_sent
request_sent-GoesOn e true s a h = h
request_sent-GoesOn e false s a h =
    let tried = reconnect-GoesOn e failure_tcp _ a h.retries in on _ tried.continues tried.retries

pub connect-GoesOn : (e : OtaEnv) (s : Ota) → GoesOn s → GoesOn (ota_tcp_connect_cb e s)
unfolding ota_tcp_connect_cb
connect-GoesOn e s h =
    if_either GoesOn (is_active s) (λ a. request_sent-GoesOn e _ _ a (on _ h.continues h.retries))
      (λ a. h)

connection_started-GoesOn :
    (e : OtaEnv) (b : Bool) (s : Ota)
    → is_active s ≡ true
    → GoesOn s
    → GoesOn (connection_started e b s)
unfolding connection_started
connection_started-GoesOn e true s a h = h
connection_started-GoesOn e false s a h = reconnect-GoesOn e failure_tcp _ a h.retries

address_found-GoesOn :
    (e : OtaEnv) (b : Bool) (s : Ota) → is_active s ≡ true → GoesOn s → GoesOn (address_found e b s)
unfolding address_found
address_found-GoesOn e true s a h = connection_started-GoesOn e _ _ a (on _ h.continues h.retries)
address_found-GoesOn e false s a h = reconnect-GoesOn e failure_dns _ a h.retries

pub dns_found-GoesOn :
    (e : OtaEnv) (b : Bool) (s : Ota) → GoesOn s → GoesOn (ota_dns_found_cb e b s)
unfolding ota_dns_found_cb
dns_found-GoesOn e b s h =
    if_either GoesOn (is_active s) (λ a. address_found-GoesOn e b _ a (on _ h.continues h.retries))
      (λ a. h)

lookup_answered-GoesOn :
    (e : OtaEnv) (a : DnsAnswer) (s : Ota)
    → is_active s ≡ true
    → GoesOn s
    → GoesOn (lookup_answered e a s)
unfolding lookup_answered
lookup_answered-GoesOn e dns_known s a h = dns_found-GoesOn e true s h
lookup_answered-GoesOn e dns_in_progress s a h = h
lookup_answered-GoesOn e dns_failed s a h = reconnect-GoesOn e failure_dns _ a h.retries

pub start_lookup-GoesOn :
    (e : OtaEnv) (s : Ota)
    → s.ota_in_progress ≡ true
    → s.ota_retry_pending ≡ false
    → s.ota_retry_count ≤ ota_max_retries
    → GoesOn (start_lookup e s)
unfolding start_lookup
start_lookup-GoesOn e s p q n = lookup_answered-GoesOn e _ _ (rw (p, q) refl) (on _ (rw (p, q) _) n)

-- The timer for another attempt, which is armed no more.
pub retry-GoesOn :
    (e : OtaEnv) (s : Ota)
    → GoesOn s
    → GoesOn (ota_retry_timer_cb e (record s { ota_retry_timer = fire s.ota_retry_timer }))
unfolding ota_retry_timer_cb
retry-GoesOn e s h =
    if_either GoesOn s.ota_in_progress (λ p. start_lookup-GoesOn e _ p refl h.retries)
      (λ p. on _ (rw p _) h.retries)

-- ===== src/Ota/Safe.antt =====
-- The handlers of user/ota.c but those of the receiver keep what is known of the flash.
use meter_logger.Prelude.{
  ℕ, ◌≡◌, refl, Bool, true, false, inl, inr, if◌then◌else◌, if_all, ltb, leb, List, arith,
}
use meter_logger.Prelude.Text.{Text}
use meter_logger.Sdk.{stopped}
use meter_logger.Ota.State.{
  FlashCall, DnsAnswer, dns_known, dns_in_progress, dns_failed, OtaEnv, Ota, ota_max_retries,
  is_active, ota_cleanup_timers, ota_fail_update, ota_incomplete_http_response,
}
use meter_logger.Ota.Retry.{
  RetryReason, failure_other, failure_dns, failure_tcp, failure_incomplete_http_response,
  note_failure, retry_later, give_up, ota_trigger_reconnect, reason_of, timed_out,
  ota_timeout_timer_cb, is_idle, progress_of, ota_progress_timer_cb, ota_tcp_recon_cb,
}
use meter_logger.Ota.Connect.{
  request_sent, ota_tcp_connect_cb, connection_started, address_found, ota_dns_found_cb,
  lookup_answered, start_lookup, ota_retry_timer_cb,
}
use meter_logger.Ota.Image.{Job, rests, Pends, Fits, FlashKept, IsSafe, safe}

module _ (e : OtaEnv) (t : Job) where
  -- A failure leaves the flash, and no writer.
  pub fail-IsSafe :
      (status : Text) (b : Bool) (s : Ota)
      → FlashKept e t s
      → IsSafe e t (ota_fail_update status b s)
  unfolding ota_fail_update
  fail-IsSafe status b s h =
      if_all (IsSafe e t) b (safe _ h (inl (refl, _), _)) (safe _ h (inl (refl, _), _))

  note_failure-Kept :
      (r : RetryReason) (s : Ota) → FlashKept e t s → FlashKept e t (note_failure r s)
  note_failure-Kept failure_other s h = h
  note_failure-Kept failure_dns s h = h
  note_failure-Kept failure_tcp s h = h
  note_failure-Kept failure_incomplete_http_response s h = h

  retry_later-IsSafe :
      (r : RetryReason) (s : Ota)
      → s.ota_continue_pending ≡ false
      → FlashKept e t s
      → IsSafe e t (retry_later e r s)
  unfolding retry_later
  retry_later-IsSafe r s c h =
      safe _
        (record { same = h.same; kept = omega (arith, h.kept); sized = h.sized; staged = h.staged })
        (inr (inl (refl, c, omega arith)), refl)

  give_up-IsSafe : (s : Ota) → FlashKept e t s → IsSafe e t (give_up s)
  unfolding give_up ota_cleanup_timers
  give_up-IsSafe s h = safe _ h (inl (refl, _), _)

  pub reconnect-IsSafe :
      (r : RetryReason) (s : Ota) → IsSafe e t s → IsSafe e t (ota_trigger_reconnect e r s)
  unfolding ota_trigger_reconnect
  reconnect-IsSafe r s h =
      let k = note_failure-Kept r s h.flash_kept in
      if_all (IsSafe e t) (is_active s)
        (if_all (IsSafe e t) (ltb s.ota_retry_count ota_max_retries) (retry_later-IsSafe r _ refl k)
          (give_up-IsSafe _ k))
        h

  timed_out-IsSafe : (b : Bool) (s : Ota) → IsSafe e t s → IsSafe e t (timed_out e b s)
  unfolding timed_out
  timed_out-IsSafe true s h = reconnect-IsSafe failure_dns _ (safe _ h.flash_kept h.writer_fits)
  timed_out-IsSafe false s h =
      let r = reason_of (ota_incomplete_http_response s) in
      let tried = reconnect-IsSafe r _ (safe _ h.flash_kept h.writer_fits) in
      safe _ tried.flash_kept tried.writer_fits

  pub timeout-IsSafe : (s : Ota) → IsSafe e t s → IsSafe e t (ota_timeout_timer_cb e s)
  unfolding ota_timeout_timer_cb
  timeout-IsSafe s h = if_all (IsSafe e t) (is_active s) (timed_out-IsSafe s.ota_dns_pending s h) h

  pub progress-IsSafe : (s : Ota) → IsSafe e t s → IsSafe e t (ota_progress_timer_cb e s)
  unfolding ota_progress_timer_cb
  progress-IsSafe s h = if_all (IsSafe e t) (is_idle s) h (
      if_all (IsSafe e t) (leb (progress_of s) s.ota_last_reported_progress) h
        (safe _ h.flash_kept h.writer_fits))

  pub recon-IsSafe : (s : Ota) → IsSafe e t s → IsSafe e t (ota_tcp_recon_cb e s)
  unfolding ota_tcp_recon_cb
  recon-IsSafe s h =
      if_all (IsSafe e t) (is_active s) (reconnect-IsSafe _ _ (safe _ h.flash_kept h.writer_fits)) h

  request_sent-IsSafe : (b : Bool) (s : Ota) → IsSafe e t s → IsSafe e t (request_sent e b s)
  unfolding request_sent
  request_sent-IsSafe true s h = h
  request_sent-IsSafe false s h =
      let tried = reconnect-IsSafe failure_tcp _ (safe _ h.flash_kept h.writer_fits) in
      safe _ tried.flash_kept tried.writer_fits

  pub connect-IsSafe : (s : Ota) → IsSafe e t s → IsSafe e t (ota_tcp_connect_cb e s)
  unfolding ota_tcp_connect_cb
  connect-IsSafe s h =
      if_all (IsSafe e t) (is_active s)
        (request_sent-IsSafe _ _ (safe _ h.flash_kept h.writer_fits)) h

  connection_started-IsSafe :
      (b : Bool) (s : Ota) → IsSafe e t s → IsSafe e t (connection_started e b s)
  unfolding connection_started
  connection_started-IsSafe true s h = h
  connection_started-IsSafe false s h =
      reconnect-IsSafe failure_tcp _ (safe _ h.flash_kept h.writer_fits)

  address_found-IsSafe : (b : Bool) (s : Ota) → IsSafe e t s → IsSafe e t (address_found e b s)
  unfolding address_found
  address_found-IsSafe true s h = connection_started-IsSafe _ _ (safe _ h.flash_kept h.writer_fits)
  address_found-IsSafe false s h =
      reconnect-IsSafe failure_dns _ (safe _ h.flash_kept h.writer_fits)

  pub dns_found-IsSafe : (b : Bool) (s : Ota) → IsSafe e t s → IsSafe e t (ota_dns_found_cb e b s)
  unfolding ota_dns_found_cb
  dns_found-IsSafe b s h =
      if_all (IsSafe e t) (is_active s)
        (address_found-IsSafe b _ (safe _ h.flash_kept h.writer_fits)) h

  lookup_answered-IsSafe :
      (a : DnsAnswer) (s : Ota) → IsSafe e t s → IsSafe e t (lookup_answered e a s)
  unfolding lookup_answered
  lookup_answered-IsSafe dns_known s h = dns_found-IsSafe true s h
  lookup_answered-IsSafe dns_in_progress s h = h
  lookup_answered-IsSafe dns_failed s h =
      reconnect-IsSafe failure_dns _ (safe _ h.flash_kept h.writer_fits)

  pub start_lookup-IsSafe : (s : Ota) → IsSafe e t s → IsSafe e t (start_lookup e s)
  unfolding start_lookup
  start_lookup-IsSafe s h = lookup_answered-IsSafe _ _ (safe _ h.flash_kept h.writer_fits)

  -- The writer is kept for another range only.
  retry_writer :
      (progress valid retry again : Bool) (received : ℕ) (ctx : List ℕ) (h : List FlashCall)
      → retry ≡ true
      → Fits e t progress valid retry again received ctx h
      → Fits e t progress (if again then valid else false) false false received ctx h
  retry_writer progress valid retry true received ctx h r (inl v) = inl v
  retry_writer progress valid retry true received ctx h r (inr (inl p)) = absurd (cc (p.1))
  retry_writer progress valid retry true received ctx h r (inr (inr y)) =
      inr (inr (y.0, (λ x. x), y.2))
  retry_writer progress valid retry false received ctx h r (inl v) = inl (refl, v.1)
  retry_writer progress valid retry false received ctx h r (inr (inl p)) =
      inl (refl, rests progress received p.2)
  retry_writer progress valid retry false received ctx h r (inr (inr y)) = absurd (cc (y.1 r))

  -- The timer for another attempt was armed for one that is pending.
  pub retry-IsSafe :
      (s : Ota)
      → IsSafe e t s
      → s.ota_retry_pending ≡ true
      → s.ota_retry_timer ≡ stopped
      → IsSafe e t (ota_retry_timer_cb e s)
  unfolding ota_retry_timer_cb
  retry-IsSafe s h r n =
      let w =
        retry_writer s.ota_in_progress s.is_valid_binary s.ota_retry_pending s.ota_continue_pending
          s.ota_received_bytes s.ota_sha_ctx s.flash r h.writer_fits.0 in
      let off : Pends s.ota_retry_timer false = rw n _ in
      if_all (IsSafe e t) s.ota_in_progress (start_lookup-IsSafe _ (safe _ h.flash_kept (w, off))) h

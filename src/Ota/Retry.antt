-- ===== src/Ota/Retry.antt =====
-- user/ota.c: what follows a failure of the network, and the timers but the one for a retry.
use meter_logger.Prelude.{
  ℕ, ◌+◌, ◌*◌, ◌/◌, ◌%◌, ◌^◌, Bool, true, false, ◌&&◌, ◌||◌, not, if◌then◌else◌, ltb, leb, ◌==◌,
  List, ◌∷◌, ◌++◌, take,
}
use meter_logger.Prelude.Text.{Text, codes}
use meter_logger.Sdk.{stopped, once}
use meter_logger.Ota.State.{
  OtaCall, ota_status, abort, OtaEnv, Ota, ota_max_retries, ota_reconnect_delay_ms, spi_sector_size,
  is_active, report, ota_cleanup_timers, ota_incomplete_http_response,
}

-- `ota_retry_reason_t`
pub data RetryReason : Type 0 where
  failure_other failure_dns failure_tcp failure_incomplete_http_response : RetryReason

abbrev pub is_incomplete : RetryReason → Bool
is_incomplete failure_other = false
is_incomplete failure_dns = false
is_incomplete failure_tcp = false
is_incomplete failure_incomplete_http_response = true

-- The switch over the reasons.
abbrev pub note_failure : RetryReason → Ota → Ota
note_failure failure_other s = record s { ota_other_failure_seen = true }
note_failure failure_dns s = record s { ota_dns_failure_seen = true }
note_failure failure_tcp s = record s { ota_tcp_failure_seen = true }
note_failure failure_incomplete_http_response s = record s {
  ota_incomplete_http_response_seen = true;
}

-- Another attempt, from the start of the sector.
unfoldable pub retry_later : OtaEnv → RetryReason → Ota → Ota
retry_later e reason s =
    let count = s.ota_retry_count + 1 in
    let offset = s.ota_received_bytes / spi_sector_size * spi_sector_size in
    let status =
      codes "retrying_chunk_"
      ++ (e.print_unsigned count ++ (codes "_offset_" ++ e.print_unsigned offset)) in
    record s {
      ota_retry_count = count;
      ota_retry_pending = true;
      ota_received_bytes = offset;
      calls =
          if is_incomplete reason && s.mqtt_client
          then ota_status (take 63 status) ∷ s.calls
          else s.calls;
      ota_retry_timer = once ota_reconnect_delay_ms;
    }

-- The reports of the failures that were seen.
unfoldable pub failure_reports : Ota → List OtaCall → List OtaCall
failure_reports s cs =
    let note =
      λ (seen : Bool) (t : Text) (l : List OtaCall). if seen then ota_status t ∷ l else l in
    let dns = note s.ota_dns_failure_seen (codes "error_dns_resolution") cs in
    let tcp = note s.ota_tcp_failure_seen (codes "error_tcp_connection") dns in
    let incomplete =
      note s.ota_incomplete_http_response_seen (codes "error_incomplete_http_response") tcp in
    let other = note s.ota_other_failure_seen (codes "error_incomplete_firmware") incomplete in
    if s.ota_dns_failure_seen
      || (s.ota_tcp_failure_seen
          || (s.ota_incomplete_http_response_seen || s.ota_other_failure_seen))
    then other
    else ota_status (codes "error_retry_exhausted") ∷ cs

-- All attempts have failed.
unfoldable pub give_up : Ota → Ota
give_up s = record (ota_cleanup_timers s) {
  ota_retry_pending = false;
  ota_continue_pending = false;
  is_valid_binary = false;
  ota_dns_pending = false;
  calls = if s.mqtt_client then failure_reports s s.calls else s.calls;
  ota_in_progress = false;
}

unfoldable pub ota_trigger_reconnect : OtaEnv → RetryReason → Ota → Ota
ota_trigger_reconnect e reason s =
    let failed : Ota = record (note_failure reason s) {
      ota_timeout_timer = stopped;
      ota_dns_pending = false;
      ota_continue_pending = false;
    } in
    let next =
      if ltb s.ota_retry_count ota_max_retries
      then retry_later e reason failed
      else give_up failed in
    if is_active s then next else s

-- The reason by whether the answer was incomplete.
abbrev pub reason_of : Bool → RetryReason
reason_of true = failure_incomplete_http_response
reason_of false = failure_tcp

-- The timeout, by whether it waited for the name of the server.
unfoldable pub timed_out : OtaEnv → Bool → Ota → Ota
timed_out e true s =
    ota_trigger_reconnect e failure_dns
      (record s { ota_dns_pending = false; ota_timeout_timer = stopped })
timed_out e false s =
    let incomplete = ota_incomplete_http_response s in
    let out : Ota = record s {
      ota_dns_pending = false;
      ota_timeout_timer = stopped;
      ota_tcp_failure_seen = if incomplete then true else s.ota_tcp_failure_seen;
    } in
    let tried = ota_trigger_reconnect e (reason_of incomplete) out in
    record tried { calls = abort ∷ tried.calls }

unfoldable pub ota_timeout_timer_cb : OtaEnv → Ota → Ota
ota_timeout_timer_cb e s = if is_active s then timed_out e s.ota_dns_pending s else s

-- The progress in percent, on 8 bits.
abbrev pub progress_of : Ota → ℕ
progress_of s = s.ota_received_bytes * 100 % 2 ^ 32 / s.ota_firmware_size % 2 ^ 8

-- There is no progress to report, since nothing is received or the size is not known.
abbrev pub is_idle : Ota → Bool
is_idle s =
    not s.ota_in_progress
    || (s.ota_retry_pending || (not s.ota_firmware_size_known || s.ota_firmware_size == 0))

unfoldable pub ota_progress_timer_cb : OtaEnv → Ota → Ota
ota_progress_timer_cb e s =
    let current = progress_of s in
    let message = codes "flashing_" ++ (e.print_unsigned current ++ codes "%") in
    let reported = report (take 31 message) (record s { ota_last_reported_progress = current }) in
    if is_idle s then s else if leb current s.ota_last_reported_progress then s else reported

unfoldable pub ota_tcp_recon_cb : OtaEnv → Ota → Ota
ota_tcp_recon_cb e s =
    let out : Ota = record s { ota_timeout_timer = stopped; ota_tcp_failure_seen = true } in
    let next = ota_trigger_reconnect e (reason_of (ota_incomplete_http_response out)) out in
    if is_active s then next else s

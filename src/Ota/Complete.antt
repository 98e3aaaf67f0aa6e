-- ===== src/Ota/Complete.antt =====
-- user/ota.c: `ota_tcp_discon_cb`. When the server has closed the connection, the image is complete, another range
-- is asked for, or the attempt has failed.
use meter_logger.Prelude.{
  ◌+◌, ◌%◌, ◌^◌, Bool, true, false, ◌&&◌, ◌||◌, not, if◌then◌else◌, ltb, ◌==◌, ◌∷◌, ◌++◌, take,
}
use meter_logger.Prelude.Text.{codes, text_eq}
use meter_logger.Sdk.{stopped, once}
use meter_logger.Ota.State.{
  write_end, set_temp_rom, restart, OtaEnv, Ota, ota_reconnect_delay_ms, min_firmware_size,
  is_active, has_check, report, ota_cleanup_timers, ota_fail_update, ota_incomplete_http_response,
}
use meter_logger.Ota.Retry.{
  failure_other, failure_tcp, failure_incomplete_http_response, ota_trigger_reconnect,
}

unfoldable pub ota_schedule_range_continue : Ota → Ota
ota_schedule_range_continue s =
    let continued : Ota = record s {
      ota_dns_pending = false;
      ota_continue_pending = true;
      ota_retry_pending = true;
      ota_timeout_timer = stopped;
      ota_retry_timer = once ota_reconnect_delay_ms;
    } in
    if is_active s then continued else s

-- Whether the answer and the image are complete.
abbrev pub is_complete : Ota → Bool
is_complete s =
    s.is_valid_binary
    && (s.ota_response_length_known
        && (s.ota_response_received_bytes == s.ota_response_length
            && (s.ota_firmware_size_known && s.ota_received_bytes == s.ota_firmware_size)))

-- Whether the hash is the one that is expected for the ROM that was written.
abbrev pub is_matched : OtaEnv → Ota → Bool
is_matched e s =
    if s.ota_target_rom == 0 && s.has_sha256_check_1
    then text_eq (e.sha256 s.ota_sha_ctx) s.expected_sha256_1
    else if s.ota_target_rom == 1 && s.has_sha256_check_2
    then text_eq (e.sha256 s.ota_sha_ctx) s.expected_sha256_2
    else false

-- The new ROM is staged: this is reported, and the restart is called for. `SYSTEM_RESTART_DELAY_MS` is 3000.
unfoldable pub succeed : OtaEnv → Ota → Ota
succeed e s =
    let full = report (codes "flashing_100%") (record s { ota_last_reported_progress = 100 }) in
    let flashed = if ltb s.ota_last_reported_progress 100 then full else s in
    let rom = e.print_unsigned (s.ota_target_rom + 1) in
    let reported = report (take 31 (codes "success&target_rom=" ++ rom)) flashed in
    let restarting =
      report (take 31 (codes "restarting_in_" ++ (e.print_unsigned 3 ++ codes "s"))) reported in
    record restarting { ota_in_progress = false; calls = restart ∷ restarting.calls }

-- The image was written: it is staged for the next boot.
unfoldable pub stage : OtaEnv → Ota → Ota
stage e s =
    let staged : Ota = record s { flash = set_temp_rom s.ota_target_rom ∷ s.flash } in
    if e.flash_ok staged.flash
    then succeed e staged
    else ota_fail_update (codes "error_boot_stage") false staged

-- The image is complete: it is checked.
unfoldable pub finish_image : OtaEnv → Ota → Ota
finish_image e s =
    let ended : Ota = record (ota_cleanup_timers s) { flash = write_end ∷ s.flash } in
    if not (e.flash_ok ended.flash)
    then ota_fail_update (codes "error_flash_write") false ended
    else if ltb s.ota_received_bytes min_firmware_size
    then ota_fail_update (codes "error_too_small") false ended
    else if not (s.ota_received_bytes == s.ota_firmware_size)
    then ota_fail_update (codes "error_truncated") false ended
    else if has_check s && not (is_matched e s)
    then ota_fail_update (codes "error_checksum_mismatch") false ended
    else stage e ended

-- Whether a range is complete, and another one follows.
abbrev pub is_range_done : Ota → Bool
is_range_done s =
    s.ota_response_received_bytes == s.ota_response_length
    && (s.ota_response_status_code == 206
        && (s.ota_response_range_valid
            && (ltb ((s.ota_response_range_end + 1) % 2 ^ 32) s.ota_response_range_total
                && (s.ota_received_bytes == (s.ota_response_range_end + 1) % 2 ^ 32
                    && ltb s.ota_received_bytes s.ota_firmware_size))))

unfoldable pub unfinished : OtaEnv → Ota → Ota
unfinished e s =
    if ota_incomplete_http_response s
    then ota_trigger_reconnect e failure_incomplete_http_response s
    else if not s.headers_parsed || not s.ota_response_length_known
    then ota_trigger_reconnect e failure_tcp (record s { ota_tcp_failure_seen = true })
    else if is_range_done s
    then ota_schedule_range_continue s
    else ota_trigger_reconnect e failure_other s

unfoldable pub ota_tcp_discon_cb : OtaEnv → Ota → Ota
ota_tcp_discon_cb e s =
    let closed : Ota = record s { ota_timeout_timer = stopped } in
    let next = if is_complete s then finish_image e closed else unfinished e closed in
    if is_active s then next else s

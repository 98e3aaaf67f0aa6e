-- ===== src/Ota/State.antt =====
-- user/ota.c: its variables, and what it calls. The drivers answer by what was called before, so that a flash, a
-- writer and a network are functions of the calls.
use meter_logger.Prelude.{ℕ, Bool, true, false, ◌&&◌, not, Option, if◌then◌else◌, ltb, List, ◌∷◌}
use meter_logger.Prelude.Text.{Text}
use meter_logger.Sdk.{Timer, stopped}

-- The calls of the flash and of rBoot, the last one first: `spi_flash_erase_sector`, `rboot_write_init`,
-- `rboot_write_flash`, `rboot_write_end` and `rboot_set_temp_rom`.
pub data FlashCall : Type 0 where
  erase_sector write_init : ℕ → FlashCall
  write_flash : List ℕ → FlashCall
  write_end : FlashCall
  set_temp_rom : ℕ → FlashCall

-- The other calls: `mqtt_rpc_ota_status`, the scanner, the network, `system_restart_defered`.
pub data OtaCall : Type 0 where
  ota_status gethostbyname send : Text → OtaCall
  start_scan stop_scan abort restart : OtaCall
  connect : ℕ → OtaCall

-- ERR_OK, ERR_INPROGRESS, and any other answer.
pub data DnsAnswer : Type 0 where
  dns_known dns_in_progress dns_failed : DnsAnswer

-- What the code finds outside: the answers to the last call, the flash, rBoot, SHA-256, and `%u`.
pub record OtaEnv : Type 0 where
  pub gethostbyname_answer : List OtaCall → DnsAnswer
  pub connect_ok : List OtaCall → Bool
  pub send_ok : List OtaCall → Bool
  pub flash_ok : List FlashCall → Bool
  pub flash_read : List FlashCall → ℕ → ℕ → Option (List ℕ)
  pub roms : ℕ → ℕ
  pub current_rom : ℕ
  pub sha256 : List ℕ → List ℕ
  pub print_unsigned : ℕ → Text

-- The variables of the file. `header` is what `ota_header_buffer` holds, `ota_sha_ctx` the bytes that
-- were hashed so far, and `mqtt_client` is whether it is set.
pub record Ota : Type 0 where
  pub ota_in_progress : Bool
  pub mqtt_client : Bool
  pub ota_target_rom : ℕ
  pub ota_target_base_addr : ℕ
  pub headers_parsed : Bool
  pub is_valid_binary : Bool
  pub ota_firmware_size : ℕ
  pub ota_firmware_size_known : Bool
  pub ota_response_length : ℕ
  pub ota_response_received_bytes : ℕ
  pub ota_response_length_known : Bool
  pub ota_response_status_code : ℕ
  pub ota_response_range_end : ℕ
  pub ota_response_range_total : ℕ
  pub ota_response_range_valid : Bool
  pub ota_received_bytes : ℕ
  pub ota_request_offset : ℕ
  pub ota_retry_count : ℕ
  pub ota_retry_pending : Bool
  pub ota_continue_pending : Bool
  pub ota_dns_pending : Bool
  pub ota_incomplete_http_response_seen : Bool
  pub ota_dns_failure_seen : Bool
  pub ota_tcp_failure_seen : Bool
  pub ota_other_failure_seen : Bool
  pub ota_last_reported_progress : ℕ
  pub header : List ℕ
  pub ota_host : Text
  pub ota_host_header : Text
  pub ota_path : Text
  pub ota_port : ℕ
  pub ota_timeout_timer : Timer
  pub ota_retry_timer : Timer
  pub ota_progress_timer : Timer
  pub ota_sha_ctx : List ℕ
  pub expected_sha256_1 : List ℕ
  pub expected_sha256_2 : List ℕ
  pub has_sha256_check_1 : Bool
  pub has_sha256_check_2 : Bool
  pub flash : List FlashCall
  pub calls : List OtaCall

abbrev pub ota_max_retries : ℕ
ota_max_retries = 5

abbrev pub ota_reconnect_delay_ms : ℕ
ota_reconnect_delay_ms = 2000

abbrev pub spi_sector_size : ℕ
spi_sector_size = 4096

abbrev pub ota_max_header_size : ℕ
ota_max_header_size = 1024

abbrev pub min_firmware_size : ℕ
min_firmware_size = 102400

abbrev pub max_firmware_size : ℕ
max_firmware_size = 0x69000

abbrev pub ota_network_timeout_ms : ℕ
ota_network_timeout_ms = 15000

-- The test at the start of the handlers, the other way round.
abbrev pub is_active : Ota → Bool
is_active s = s.ota_in_progress && not s.ota_retry_pending

abbrev pub has_check : Ota → Bool
has_check s = if s.has_sha256_check_1 then true else s.has_sha256_check_2

-- A status is sent if the client is set.
abbrev pub report : Text → Ota → Ota
report t s = record s { calls = if s.mqtt_client then ota_status t ∷ s.calls else s.calls }

unfoldable pub ota_cleanup_timers : Ota → Ota
ota_cleanup_timers s = record s {
  ota_timeout_timer = stopped;
  ota_retry_timer = stopped;
  ota_progress_timer = stopped;
}

unfoldable pub ota_fail_update : Text → Bool → Ota → Ota
unfolding ota_cleanup_timers
ota_fail_update status abort_connection s =
    let failed : Ota = record (ota_cleanup_timers s) {
      ota_retry_pending = false;
      ota_continue_pending = false;
      ota_dns_pending = false;
      is_valid_binary = false;
      ota_in_progress = false;
      calls = start_scan ∷ s.calls;
    } in
    let reported = report status failed in
    if abort_connection then record reported { calls = abort ∷ reported.calls } else reported

unfoldable pub ota_incomplete_http_response : Ota → Bool
ota_incomplete_http_response s =
    s.headers_parsed
    && (s.ota_response_length_known && ltb s.ota_response_received_bytes s.ota_response_length)

-- ===== src/Ota/Tests.antt =====
-- Upgrades of user/ota.c with a flash that keeps what is written.
use meter_logger.Prelude.{
  ◌==◌, not, ◌&&◌, ◌+◌, ◌-◌, ◌%◌, ◌≡◌, refl, true, false, Option, none, some, List, [], ◌∷◌, ◌++◌,
  replicate, take, drop, arith,
}
use meter_logger.Prelude.Text.{Text, codes, text_eq, is_digit, IsDigit, digits_from}
use meter_logger.Prelude.Search.{all, all-All, all-Lacks, find, starts_with}
use meter_logger.Sdk.{stopped}
use meter_logger.Ota.State.{dns_known, OtaEnv, Ota}
use meter_logger.Ota.Http.{
  ota_ascii_lower, crlf, ota_get_header_value, ota_parse_uint32, ota_parse_content_range,
  ota_parse_status_code,
}
use meter_logger.Ota.Numbers.{IsDigits, ota_parse_uint32_lem}
use meter_logger.Ota.Fields.{is_named, Field, render, field_of, ota_get_header_value_lem}
use meter_logger.Ota.Address.{IsHostChar, start_url-address}
use meter_logger.Ota.Connect.{start_lookup}
use meter_logger.Ota.Start.{start_url, short_url, start_ota_update}
use meter_logger.Ota.Run.{OtaEvent, connected, disconnected, received, retry_timer, ota_run}
use meter_logger.Ota.Image.{Job, job_of, image_of, IsDevice, AllStagedGood}
use meter_logger.Ota.Progress.{GoesOn}
use meter_logger.Ota.Upgrade.{upgrade-AllStagedGood}
use meter_logger.Ota.Liveness.{upgrade-GoesOn}

-- Each ROM stands at 0x2000, all calls succeed, and the hash of an image is its first 32 bytes.
abbrev bench : OtaEnv
bench = record {
  gethostbyname_answer = λ calls. dns_known;
  connect_ok = λ calls. true;
  send_ok = λ calls. true;
  flash_ok = λ calls. true;
  flash_read = λ h addr len. some (take len (drop (addr - 0x2000) (image_of 0x2000 h)));
  roms = λ rom. 0x2000;
  current_rom = 0;
  sha256 = λ bytes. take 32 bytes;
  print_unsigned = λ n. (n % 10 + 48) ∷ [];
}

bench-IsDevice : (t : Job) → IsDevice bench t
bench-IsDevice t = record {
  in_flash = omega arith;
  whole_sectors = omega arith;
  reads_back = λ n h ordered addr len bytes r p q. cc (r);
}

-- All variables are 0, as at the start.
abbrev blank : Ota
blank = record {
  ota_in_progress = false;
  mqtt_client = false;
  ota_target_rom = 0;
  ota_target_base_addr = 0;
  headers_parsed = false;
  is_valid_binary = false;
  ota_firmware_size = 0;
  ota_firmware_size_known = false;
  ota_response_length = 0;
  ota_response_received_bytes = 0;
  ota_response_length_known = false;
  ota_response_status_code = 0;
  ota_response_range_end = 0;
  ota_response_range_total = 0;
  ota_response_range_valid = false;
  ota_received_bytes = 0;
  ota_request_offset = 0;
  ota_retry_count = 0;
  ota_retry_pending = false;
  ota_continue_pending = false;
  ota_dns_pending = false;
  ota_incomplete_http_response_seen = false;
  ota_dns_failure_seen = false;
  ota_tcp_failure_seen = false;
  ota_other_failure_seen = false;
  ota_last_reported_progress = 0;
  header = [];
  ota_host = [];
  ota_host_header = [];
  ota_path = [];
  ota_port = 0;
  ota_timeout_timer = stopped;
  ota_retry_timer = stopped;
  ota_progress_timer = stopped;
  ota_sha_ctx = [];
  expected_sha256_1 = replicate 32 0;
  expected_sha256_2 = replicate 32 0;
  has_sha256_check_1 = false;
  has_sha256_check_2 = false;
  flash = [];
  calls = [];
}

abbrev address : Option Text
address = some (codes "http://update.example:8080/rom.bin")

abbrev answer : Text
answer = codes "HTTP/1.1 200 OK" ++ crlf ++ codes "Content-Length: 102400" ++ crlf ++ crlf

-- A connection without an answer, and then one that brings an image of 100 KB in two parts.
abbrev events : List OtaEvent
events =
    connected
    ∷ disconnected
    ∷ retry_timer
    ∷ connected
    ∷ received (answer ++ (0xe9 ∷ []))
    ∷ received (replicate 102399 0)
    ∷ disconnected
    ∷ []

-- The hash of the image, in hexadecimal.
abbrev image_hash : Option Text
image_hash = some (codes "e9" ++ replicate 62 b'0')

abbrev first : Ota
first = (start_ota_update bench true address none image_hash blank).1

upgrade-AllStagedGood_example :
    AllStagedGood bench (job_of first) (ota_run bench events first).flash
upgrade-AllStagedGood_example =
    upgrade-AllStagedGood bench true address none image_hash blank events refl (bench-IsDevice _)

upgrade-GoesOn_example : GoesOn (ota_run bench events first)
upgrade-GoesOn_example = upgrade-GoesOn bench true address none image_hash blank events

text-IsDigits : (s : Text) → all is_digit s ≡ true → IsDigits s
unfolding is_digit
text-IsDigits s h = all-All IsDigit is_digit s (λ c k. ground (arith, k)) h

ota_parse_uint32_lem_example : ota_parse_uint32 (codes " 4096 " ++ crlf) ≡ some 4096
unfolding digits_from
ota_parse_uint32_lem_example =
    ota_parse_uint32_lem (codes " ") (codes " ") b'4' (codes "096") [] (refl, _) (refl, _)
      (text-IsDigits (codes "4096") refl)

abbrev fields : List Field
fields = (codes "Server", codes "x:y") ∷ (codes "Content-Length", codes "12") ∷ []

ota_get_header_value_lem_example :
    ota_get_header_value
      (codes "HTTP/1.1 200 OK" ++ (crlf ++ (render fields ++ crlf)))
      (codes "content-length")
    ≡ (some (codes "12" ++ (crlf ++ crlf)), false)
unfolding field_of is_named text_eq ota_ascii_lower
ota_get_header_value_lem_example =
    ota_get_header_value_lem (codes "HTTP/1.1 200 OK") (codes "content-length") fields []
      (all-Lacks 13 (codes "HTTP/1.1 200 OK") refl)
      (
        record {
          name_ends = all-Lacks b':' (codes "Server") refl;
          one_line = all-Lacks 13 (codes "Server: x:y") refl;
          value_starts = refl;
        },
        (
          record {
            name_ends = all-Lacks b':' (codes "Content-Length") refl;
            one_line = all-Lacks 13 (codes "Content-Length: 12") refl;
            value_starts = refl;
          },
          _,
        ),
      )

start_url-address_example :
    start_url bench (short_url (some (codes "http://h.example:80/a?b"))) blank ≡ (
      true,
      start_lookup bench (record blank {
        ota_host = codes "h.example";
        ota_port = 80;
        ota_host_header = codes "h.example:0";
        ota_path = codes "/a?b";
      }),
    )
unfolding digits_from
start_url-address_example =
    start_url-address bench blank (codes "h.example") (codes "80") (codes "a?b")
      (record {
        host_named =
            all-All IsHostChar
              (λ c. not (c == b':') && not (c == b'/') && (not (c == b'?') && not (c == b'#')))
              (codes "h.example") (λ c k. ground (arith, k)) refl;
        host_size = (omega arith, omega arith);
        port_plain = text-IsDigits (codes "80") refl;
        port_size = (omega arith, omega arith);
        port_value = (omega arith, omega arith);
        tail_whole = all-Lacks b'#' (codes "a?b") refl;
        tail_size = omega arith;
      })
      (omega arith)

range_start :
    ota_parse_content_range (codes " Bytes 4096-8191/102400" ++ crlf) ≡ some (4096, 8191, 102400)
unfolding ota_parse_content_range
range_start = refl

not_found : ota_parse_status_code (codes "HTTP/1.1 404 Not Found" ++ crlf) ≡ some 404
unfolding ota_parse_status_code find starts_with
not_found = refl

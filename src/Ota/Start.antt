-- ===== src/Ota/Start.antt =====
-- user/ota.c: `start_ota_update` with the expected hashes.
use meter_logger.Prelude.{
  ℕ, zero, suc, ◌+◌, ◌*◌, Bool, true, false, Option, none, some, if◌then◌else◌, leb, ◌==◌, List, [],
  ◌∷◌, ◌++◌, length, take, get_or, set,
}
use meter_logger.Prelude.Text.{Text, codes}
use meter_logger.Sdk.{every}
use meter_logger.Escape.{hex_char_to_val}
use meter_logger.Ota.State.{stop_scan, OtaEnv, Ota, has_check, ota_cleanup_timers, ota_fail_update}
use meter_logger.Ota.Connect.{no_response, start_lookup}
use meter_logger.Ota.Url.{
  skip_scheme, authority_end, Authority, refused, bad_port, named, parse_authority, parse_path,
}

-- A byte of a digest from its two digits.
abbrev pub hex_byte : Option ℕ → Option ℕ → Option ℕ
hex_byte none low = none
hex_byte (some high) none = none
hex_byte (some high) (some low) = some (high * 16 + low)

-- The loop over the bytes of a digest from i on: whether all digits are valid, and the digest.
unfoldable pub digest_loop : ℕ → ℕ → Text → List ℕ → Bool × List ℕ
digest_loop zero i hex digest = (true, digest)
digest_loop (suc fuel) i hex digest =
    elim (hex_byte (hex_char_to_val (get_or hex (i * 2) 0))
      (hex_char_to_val (get_or hex (i * 2 + 1) 0))) [
        | none ↦ (false, digest)
        | some b ↦ digest_loop fuel (suc i) hex (set digest i b)
      ]

-- The answer, the digest, and whether it is to be checked; none is a null pointer.
unfoldable pub ota_parse_sha256 : Option Text → List ℕ → Bool × List ℕ × Bool
ota_parse_sha256 none digest = (true, digest, false)
ota_parse_sha256 (some []) digest = (true, digest, false)
ota_parse_sha256 (some (c ∷ s)) digest =
    let d = digest_loop 32 0 (c ∷ s) digest in
    if length (c ∷ s) == 64 then (d.0, d.1, d.0) else (false, digest, false)

-- All variables of an upgrade are set back, and its timers with them.
unfoldable pub fresh : Bool → Ota → Ota
fresh client s = record (no_response (ota_cleanup_timers s)) {
  mqtt_client = client;
  ota_retry_count = 0;
  ota_retry_pending = false;
  ota_continue_pending = false;
  ota_dns_pending = false;
  ota_incomplete_http_response_seen = false;
  ota_dns_failure_seen = false;
  ota_tcp_failure_seen = false;
  ota_other_failure_seen = false;
  ota_last_reported_progress = 0;
  ota_firmware_size = 0;
  ota_firmware_size_known = false;
  ota_request_offset = 0;
  ota_received_bytes = 0;
  headers_parsed = false;
  is_valid_binary = false;
  header = [];
  ota_in_progress = true;
  ota_progress_timer = every 10000;
  calls = stop_scan ∷ s.calls;
}

-- Both digests; the second is only read if the first is valid.
unfoldable pub digests : Option Text → Option Text → Ota → Bool × Ota
digests hex_1 hex_2 s =
    let a = ota_parse_sha256 hex_1 s.expected_sha256_1 in
    let b = ota_parse_sha256 hex_2 s.expected_sha256_2 in
    let first : Ota = record s { expected_sha256_1 = a.1; has_sha256_check_1 = a.2 } in
    let both : Ota = record first { expected_sha256_2 = b.1; has_sha256_check_2 = b.2 } in
    if a.0 then (b.0, both) else (false, first)

abbrev pub invalid_url : Ota → Bool × Ota
invalid_url s = (false, ota_fail_update (codes "error_invalid_url") false s)

-- The path is set, and the name of the server is looked up.
unfoldable pub start_path : OtaEnv → Option Text → Ota → Bool × Ota
start_path e none s = invalid_url s
start_path e (some path) s = (true, start_lookup e (record s { ota_path = path }))

unfoldable pub start_authority : OtaEnv → Text → Authority → Ota → Bool × Ota
start_authority e p refused s = invalid_url s
start_authority e p (bad_port host) s = invalid_url (record s { ota_host = host })
start_authority e p (named host none) s =
    start_path e (parse_path p)
      (record s { ota_host = host; ota_port = 80; ota_host_header = host })
start_authority e p (named host (some port)) s = start_path e (parse_path p) (record s {
  ota_host = host;
  ota_port = port;
  ota_host_header = take 71 (host ++ (codes ":" ++ e.print_unsigned port));
})

-- The address behind its scheme.
unfoldable pub start_url : OtaEnv → Option Text → Ota → Bool × Ota
start_url e none s = invalid_url s
start_url e (some p) s = start_authority e p (parse_authority (take (authority_end p) p)) s

abbrev pub short_url : Option Text → Option Text
short_url none = none
short_url (some url) = if leb 256 (length url) then none else skip_scheme url

unfoldable pub start_ota_update :
    OtaEnv → Bool → Option Text → Option Text → Option Text → Ota → Bool × Ota
start_ota_update e client url hex_1 hex_2 s =
    let d = digests hex_1 hex_2 (fresh client s) in
    let hashed : Ota = record d.1 {
      ota_sha_ctx = if has_check d.1 then [] else d.1.ota_sha_ctx;
      ota_target_rom = if e.current_rom == 0 then 1 else 0;
    } in
    if d.0
    then start_url e (short_url url) hashed
    else (false, ota_fail_update (codes "error_invalid_sha256") false d.1)

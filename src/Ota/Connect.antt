-- ===== src/Ota/Connect.antt =====
-- user/ota.c: from the name of the server to the request, and the timer for another attempt.
use meter_logger.Prelude.{Bool, true, false, if◌then◌else◌, ltb, [], ◌∷◌, ◌++◌, take}
use meter_logger.Prelude.Text.{Text, codes}
use meter_logger.Sdk.{stopped, once}
use meter_logger.Ota.State.{
  gethostbyname, send, abort, connect, DnsAnswer, dns_known, dns_in_progress, dns_failed, OtaEnv,
  Ota, ota_network_timeout_ms, is_active,
}
use meter_logger.Ota.Retry.{failure_dns, failure_tcp, ota_trigger_reconnect}

-- The request, with the offset of the first byte that is missing.
unfoldable pub request_text : OtaEnv → Ota → Text
request_text e s =
    let rest =
      codes "Connection: close\r\n" ++ (codes "User-Agent: ESP8266-OTA\r\n" ++ codes "\r\n") in
    let range =
      codes "Range: bytes=" ++ (e.print_unsigned s.ota_request_offset ++ (codes "-\r\n" ++ rest)) in
    let partial =
      codes "GET "
      ++ (s.ota_path
          ++ (codes " HTTP/1.1\r\n"
              ++ (codes "Host: " ++ (s.ota_host_header ++ (codes "\r\n" ++ range))))) in
    let whole =
      codes "GET "
      ++ (s.ota_path
          ++ (codes " HTTP/1.0\r\n"
              ++ (codes "Host: " ++ (s.ota_host_header ++ (codes "\r\n" ++ rest))))) in
    take 511 (if ltb 0 s.ota_request_offset then partial else whole)

-- What is known of the answer is forgotten.
abbrev pub no_response : Ota → Ota
no_response s = record s {
  ota_response_received_bytes = 0;
  ota_response_length = 0;
  ota_response_length_known = false;
  ota_response_status_code = 0;
  ota_response_range_end = 0;
  ota_response_range_total = 0;
  ota_response_range_valid = false;
}

-- The request was sent, or not.
unfoldable pub request_sent : OtaEnv → Bool → Ota → Ota
request_sent e true s = s
request_sent e false s =
    let tried = ota_trigger_reconnect e failure_tcp (record s { ota_timeout_timer = stopped }) in
    record tried { calls = abort ∷ tried.calls }

unfoldable pub ota_tcp_connect_cb : OtaEnv → Ota → Ota
ota_tcp_connect_cb e s =
    let asking : Ota = record (no_response s) {
      ota_dns_pending = false;
      ota_request_offset = s.ota_received_bytes;
    } in
    let sent : Ota = record asking { calls = send (request_text e asking) ∷ s.calls } in
    let next = request_sent e (e.send_ok sent.calls) sent in if is_active s then next else s

-- The connection was started, or not.
unfoldable pub connection_started : OtaEnv → Bool → Ota → Ota
connection_started e true s = s
connection_started e false s =
    ota_trigger_reconnect e failure_tcp (record s { ota_timeout_timer = stopped })

-- An address was found, or not.
unfoldable pub address_found : OtaEnv → Bool → Ota → Ota
address_found e true s =
    let calls = connect s.ota_port ∷ s.calls in
    connection_started e (e.connect_ok calls) (record s { calls = calls })
address_found e false s =
    ota_trigger_reconnect e failure_dns (record s { ota_timeout_timer = stopped })

-- `found` is whether there is an address.
unfoldable pub ota_dns_found_cb : OtaEnv → Bool → Ota → Ota
ota_dns_found_cb e found s =
    let next = address_found e found (record s { ota_dns_pending = false }) in
    if is_active s then next else s

-- The answers of `dns_gethostbyname`.
unfoldable pub lookup_answered : OtaEnv → DnsAnswer → Ota → Ota
lookup_answered e dns_known s = ota_dns_found_cb e true s
lookup_answered e dns_in_progress s = s
lookup_answered e dns_failed s =
    ota_trigger_reconnect e failure_dns
      (record s { ota_dns_pending = false; ota_timeout_timer = stopped })

-- The timeout is armed, and the name of the server is looked up.
unfoldable pub start_lookup : OtaEnv → Ota → Ota
start_lookup e s =
    let asked : Ota = record s {
      ota_timeout_timer = once ota_network_timeout_ms;
      ota_dns_pending = true;
      calls = gethostbyname s.ota_host ∷ s.calls;
    } in
    lookup_answered e (e.gethostbyname_answer asked.calls) asked

unfoldable pub ota_retry_timer_cb : OtaEnv → Ota → Ota
ota_retry_timer_cb e s =
    let again : Ota = record (no_response s) {
      ota_continue_pending = false;
      ota_retry_pending = false;
      headers_parsed = false;
      is_valid_binary = if s.ota_continue_pending then s.is_valid_binary else false;
      header = [];
    } in
    let next = start_lookup e again in if s.ota_in_progress then next else s

-- ===== src/Ota/Receive.antt =====
-- user/ota.c: `ota_tcp_recv_cb`. A packet of the network goes to the header until the header is complete, and then to
-- the flash.
use meter_logger.Prelude.{
  ℕ, zero, suc, ◌+◌, ◌-◌, ◌%◌, ◌^◌, Bool, true, false, ◌&&◌, ◌||◌, not, Option, none, some,
  if◌then◌else◌, ltb, leb, ◌==◌, List, [], ◌++◌, length, take, drop,
}
use meter_logger.Prelude.Text.{Text, codes}
use meter_logger.Prelude.Search.{c_string, find}
use meter_logger.Sdk.{once}
use meter_logger.Ota.Http.{
  ota_get_header_value, ota_parse_uint32, ota_parse_content_range, ota_parse_status_code,
}
use meter_logger.Ota.State.{
  OtaEnv, Ota, ota_max_header_size, min_firmware_size, max_firmware_size, ota_network_timeout_ms,
  is_active, has_check, ota_fail_update,
}
use meter_logger.Ota.Body.{receive_body}

-- A step of the header either ends the packet, or goes on with the content length.
pub data HeaderStep : Type 0 where
  stop : Ota → HeaderStep
  go : ℕ → Ota → HeaderStep

abbrev pub fail : Text → Ota → HeaderStep
fail status s = stop (ota_fail_update status true s)

-- An answer with the whole image: all starts from the first byte.
unfoldable pub whole_image : ℕ → Ota → HeaderStep
whole_image content_length s =
    let start : Ota = record s {
      ota_received_bytes = 0;
      ota_request_offset = 0;
      ota_response_received_bytes = 0;
      is_valid_binary = false;
      ota_firmware_size = content_length;
      ota_firmware_size_known = true;
      ota_sha_ctx = if has_check s then [] else s.ota_sha_ctx;
    } in
    if ltb content_length min_firmware_size || ltb max_firmware_size content_length
    then fail (codes "error_invalid_firmware_size") s
    else go content_length start

-- An answer with a range, which must be the one that was asked for.
unfoldable pub ranged_image : ℕ → Option (ℕ × ℕ × ℕ) → Ota → HeaderStep
ranged_image content_length none s = fail (codes "error_invalid_content_range") s
ranged_image content_length (some (start, end, total)) s =
    let known : Ota = record s {
      ota_firmware_size = total;
      ota_firmware_size_known = true;
      ota_response_range_end = end;
      ota_response_range_total = total;
      ota_response_range_valid = true;
    } in
    let invalid = fail (codes "error_invalid_content_range") s in
    if not (start == s.ota_request_offset) || (ltb end start || (total == 0 || leb total end))
    then invalid
    else if ltb total min_firmware_size || ltb max_firmware_size total
    then fail (codes "error_invalid_firmware_size") s
    else if not (content_length == (end - start + 1) % 2 ^ 32)
    then invalid
    else if s.ota_firmware_size_known && not (s.ota_firmware_size == total)
    then invalid
    else go content_length known

-- A header that stands there once.
abbrev pub single : Option Text × Bool → Option Text
single (v, true) = none
single (v, false) = v

abbrev pub bind_text {ℓ} : {A : Type ℓ} → (Text → Option A) → Option Text → Option A
bind_text f none = none
bind_text f (some t) = f t

-- The content length, which is not 0.
abbrev pub positive : Option ℕ → Option ℕ
positive none = none
positive (some zero) = none
positive (some (suc n)) = some (suc n)

-- The header by its status code and the content length.
unfoldable pub checked_header : Text → ℕ → Option ℕ → Ota → HeaderStep
checked_header headers status_code none s = fail (codes "error_invalid_content_length") s
checked_header headers status_code (some content_length) s =
    let s' : Ota = record s {
      ota_response_status_code = status_code;
      ota_response_range_end = 0;
      ota_response_range_total = 0;
      ota_response_range_valid = false;
    } in
    let range =
      bind_text ota_parse_content_range
        (single (ota_get_header_value headers (codes "Content-Range"))) in
    if status_code == 200
    then whole_image content_length s'
    else ranged_image content_length range s'

-- The header by its status code.
unfoldable pub checked_status : Text → Option ℕ → Ota → HeaderStep
checked_status headers none s = fail (codes "error_invalid_http_header") s
checked_status headers (some status_code) s =
    let content_length = positive (
      bind_text ota_parse_uint32
        (single (ota_get_header_value headers (codes "Content-Length")))) in
    if not (status_code == 200) && not (status_code == 206)
    then fail (codes "error_http_not_200") s
    else checked_header headers status_code content_length s

-- The bytes of the packet behind the header, where `total` and `previous` are the lengths of the header with and
-- without this packet.
unfoldable pub body_of : OtaEnv → List ℕ → ℕ → ℕ → Ota → Ota
body_of e bytes total previous s =
    let invalid = ota_fail_update (codes "error_invalid_http_header") true s in
    let rest = drop (total - previous) bytes in
    if ltb total previous
    then invalid
    else if ltb (length bytes) (total - previous)
    then invalid
    else if length rest == 0
    then s
    else receive_body e rest s

-- The header was accepted: its body follows.
unfoldable pub header_accepted : OtaEnv → List ℕ → ℕ → ℕ → HeaderStep → Ota
header_accepted e bytes total previous (stop s) = s
header_accepted e bytes total previous (go content_length s) =
    body_of e bytes total previous (record s {
      ota_response_length = content_length;
      ota_response_received_bytes = 0;
      ota_response_length_known = true;
      headers_parsed = true;
    })

-- Where the header ends, if it is complete; `previous` is its length before the packet.
unfoldable pub header_ends : OtaEnv → List ℕ → ℕ → Option ℕ → Ota → Ota
header_ends e bytes previous none s =
    if leb (ota_max_header_size - 1) (length s.header)
    then ota_fail_update (codes "error_header_overflow") true s
    else s
header_ends e bytes previous (some marker) s =
    let headers = c_string s.header in
    header_accepted e bytes (marker + 4) previous
      (checked_status headers (ota_parse_status_code headers) s)

unfoldable pub receive_header : OtaEnv → List ℕ → Ota → Ota
receive_header e bytes s =
    let previous = length s.header in
    let header = s.header ++ take (ota_max_header_size - 1 - previous) bytes in
    header_ends e bytes previous (find (codes "\r\n\r\n") (c_string header))
      (record s { header = header })

unfoldable pub ota_tcp_recv_cb : OtaEnv → List ℕ → Ota → Ota
ota_tcp_recv_cb e bytes s =
    let waiting : Ota = record s { ota_timeout_timer = once ota_network_timeout_ms } in
    let body = if length bytes == 0 then waiting else receive_body e bytes waiting in
    let next = if s.headers_parsed then body else receive_header e bytes waiting in
    if is_active s then next else s

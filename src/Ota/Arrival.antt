-- ===== src/Ota/Arrival.antt =====
-- An upgrade of user/ota.c goes on when bytes arrive.
use meter_logger.Prelude.{
  ℕ, ◌+◌, ◌-◌, ◌%◌, ◌^◌, ◌≡◌, Bool, true, false, not, ◌&&◌, ◌||◌, if_all, if_either, ltb, leb, ◌==◌,
  Option, none, some, List, length, drop, arith,
}
use meter_logger.Prelude.Text.{Text, codes}
use meter_logger.Sdk.{once}
use meter_logger.Ota.State.{
  OtaEnv, Ota, min_firmware_size, max_firmware_size, ota_max_header_size, is_active,
}
use meter_logger.Ota.Body.{
  bytes_written, write_body, after_rehash, sector_erased, begin_writing, is_too_much, is_too_large,
  lacks_magic, receive_body,
}
use meter_logger.Ota.Receive.{
  HeaderStep, stop, go, whole_image, ranged_image, checked_header, checked_status, body_of,
  header_accepted, header_ends, receive_header, ota_tcp_recv_cb,
}
use meter_logger.Ota.Progress.{Continues, GoesOn, on, fail-GoesOn}

bytes_written-GoesOn : (b : Bool) (n : ℕ) (s : Ota) → GoesOn s → GoesOn (bytes_written b n s)
unfolding bytes_written
bytes_written-GoesOn true n s h = on _ h.continues h.retries
bytes_written-GoesOn false n s h = fail-GoesOn _ true s h.retries

write_body-GoesOn :
    (e : OtaEnv) (bytes : List ℕ) (s : Ota) → GoesOn s → GoesOn (write_body e bytes s)
unfolding write_body
write_body-GoesOn e bytes s h = bytes_written-GoesOn _ _ _ (on _ h.continues h.retries)

after_rehash-GoesOn :
    (e : OtaEnv) (bytes : List ℕ) (o : Option (List ℕ)) (s : Ota)
    → GoesOn s
    → GoesOn (after_rehash e bytes o s)
unfolding after_rehash
after_rehash-GoesOn e bytes none s h = fail-GoesOn _ true s h.retries
after_rehash-GoesOn e bytes (some c) s h = write_body-GoesOn e bytes _ (on _ h.continues h.retries)

sector_erased-GoesOn :
    (e : OtaEnv) (bytes : List ℕ) (b : Bool) (addr : ℕ) (s : Ota)
    → GoesOn s
    → GoesOn (sector_erased e bytes b addr s)
unfolding sector_erased
sector_erased-GoesOn e bytes true addr s h =
    after_rehash-GoesOn e bytes _ _ (on _ h.continues h.retries)
sector_erased-GoesOn e bytes false addr s h = fail-GoesOn _ true s h.retries

receive_body-GoesOn :
    (e : OtaEnv) (bytes : List ℕ) (s : Ota) → GoesOn s → GoesOn (receive_body e bytes s)
unfolding receive_body begin_writing
receive_body-GoesOn e bytes s h =
    if_all GoesOn (is_too_much (length bytes) s) (fail-GoesOn _ true s h.retries) (
      if_all GoesOn (is_too_large (length bytes) s) (fail-GoesOn _ true s h.retries) (
        if_all GoesOn s.is_valid_binary (write_body-GoesOn e bytes s h) (
          if_all GoesOn (lacks_magic bytes s) (fail-GoesOn _ true s h.retries)
            (sector_erased-GoesOn e bytes _ _ _ (on _ h.continues h.retries)))))

abbrev StepGoesOn : HeaderStep → Type 0
StepGoesOn (stop s) = GoesOn s
StepGoesOn (go n s) = GoesOn s

whole_image-GoesOn : (n : ℕ) (s : Ota) → GoesOn s → StepGoesOn (whole_image n s)
unfolding whole_image
whole_image-GoesOn n s h =
    if_all StepGoesOn (ltb n min_firmware_size || ltb max_firmware_size n)
      (fail-GoesOn _ true s h.retries) (on _ h.continues h.retries)

ranged_image-GoesOn :
    (n : ℕ) (range : Option (ℕ × ℕ × ℕ)) (s : Ota) → GoesOn s → StepGoesOn (ranged_image n range s)
unfolding ranged_image
ranged_image-GoesOn n none s h = fail-GoesOn _ true s h.retries
ranged_image-GoesOn n (some (start, end, total)) s h =
    if_all StepGoesOn
      (not (start == s.ota_request_offset) || (ltb end start || (total == 0 || leb total end)))
      (fail-GoesOn _ true s h.retries)
      (if_all StepGoesOn (ltb total min_firmware_size || ltb max_firmware_size total)
        (fail-GoesOn _ true s h.retries)
        (if_all StepGoesOn (not (n == (end - start + 1) % 2 ^ 32)) (fail-GoesOn _ true s h.retries)
          (if_all StepGoesOn (s.ota_firmware_size_known && not (s.ota_firmware_size == total))
            (fail-GoesOn _ true s h.retries) (on _ h.continues h.retries))))

checked_header-GoesOn :
    (headers : Text) (code : ℕ) (n : Option ℕ) (s : Ota)
    → GoesOn s
    → StepGoesOn (checked_header headers code n s)
unfolding checked_header
checked_header-GoesOn headers code none s h = fail-GoesOn _ true s h.retries
checked_header-GoesOn headers code (some n) s h =
    if_all StepGoesOn (code == 200) (whole_image-GoesOn n _ (on _ h.continues h.retries))
      (ranged_image-GoesOn n _ _ (on _ h.continues h.retries))

checked_status-GoesOn :
    (headers : Text) (code : Option ℕ) (s : Ota)
    → GoesOn s
    → StepGoesOn (checked_status headers code s)
unfolding checked_status
checked_status-GoesOn headers none s h = fail-GoesOn _ true s h.retries
checked_status-GoesOn headers (some code) s h =
    if_all StepGoesOn (not (code == 200) && not (code == 206)) (fail-GoesOn _ true s h.retries)
      (checked_header-GoesOn headers code _ s h)

body_of-GoesOn :
    (e : OtaEnv) (bytes : List ℕ) (total previous : ℕ) (s : Ota)
    → GoesOn s
    → GoesOn (body_of e bytes total previous s)
unfolding body_of
body_of-GoesOn e bytes total previous s h =
    let fails = fail-GoesOn (codes "error_invalid_http_header") true s h.retries in
    if_all GoesOn (ltb total previous) fails (
      if_all GoesOn (ltb (length bytes) (total - previous)) fails (
        if_all GoesOn (length (drop (total - previous) bytes) == 0) h
          (receive_body-GoesOn e _ s h)))

header_accepted-GoesOn :
    (e : OtaEnv) (bytes : List ℕ) (total previous : ℕ) (step : HeaderStep)
    → StepGoesOn step
    → GoesOn (header_accepted e bytes total previous step)
unfolding header_accepted
header_accepted-GoesOn e bytes total previous (stop s) h = h
header_accepted-GoesOn e bytes total previous (go n s) h =
    body_of-GoesOn e bytes total previous _ (on _ h.continues h.retries)

header_ends-GoesOn :
    (e : OtaEnv) (bytes : List ℕ) (previous : ℕ) (marker : Option ℕ) (s : Ota)
    → GoesOn s
    → GoesOn (header_ends e bytes previous marker s)
unfolding header_ends
header_ends-GoesOn e bytes previous none s h =
    if_all GoesOn (leb (ota_max_header_size - 1) (length s.header)) (fail-GoesOn _ true s h.retries)
      h
header_ends-GoesOn e bytes previous (some marker) s h =
    header_accepted-GoesOn e bytes _ previous _ (checked_status-GoesOn _ _ s h)

-- A packet arms the timeout.
armed :
    (s : Ota)
    → is_active s ≡ true
    → Continues s.ota_in_progress s.ota_retry_pending (once 15000) s.ota_retry_timer
armed s a =
    let p : s.ota_in_progress ≡ true = ground (arith, a) in
    let q : s.ota_retry_pending ≡ false = ground (arith, a) in rw (p, q) _

pub receive-GoesOn :
    (e : OtaEnv) (bytes : List ℕ) (s : Ota) → GoesOn s → GoesOn (ota_tcp_recv_cb e bytes s)
unfolding ota_tcp_recv_cb receive_header
receive-GoesOn e bytes s h =
    if_either GoesOn (is_active s)
      (λ a.
        if_all GoesOn s.headers_parsed
          (if_all GoesOn (length bytes == 0) (on _ (armed s a) h.retries)
            (receive_body-GoesOn e bytes _ (on _ (armed s a) h.retries)))
          (header_ends-GoesOn e bytes _ _ _ (on _ (armed s a) h.retries)))
      (λ a. h)

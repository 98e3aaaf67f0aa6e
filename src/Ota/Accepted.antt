-- ===== src/Ota/Accepted.antt =====
-- The header of an answer, in `ota_tcp_recv_cb` of user/ota.c, keeps what is known of the flash.
use meter_logger.Prelude.{
  ℕ, ◌+◌, ◌-◌, ◌%◌, ◌^◌, refl, true, inl, not, ◌&&◌, ◌||◌, if_all, if_either, ltb, leb, ◌==◌,
  Option, none, some, List, length, drop, arith,
}
use meter_logger.Prelude.Text.{Text, codes}
use meter_logger.Ota.State.{
  OtaEnv, Ota, min_firmware_size, max_firmware_size, ota_max_header_size, is_active,
}
use meter_logger.Ota.Receive.{
  HeaderStep, stop, go, whole_image, ranged_image, checked_header, checked_status, body_of,
  header_accepted, header_ends, receive_header, ota_tcp_recv_cb,
}
use meter_logger.Ota.Image.{Job, IsDevice, rests, IsSafe, safe}
use meter_logger.Ota.Safe.{fail-IsSafe}
use meter_logger.Ota.Written.{IsAwake, receive_body-IsSafe}

-- What a step of the header keeps; it goes on only while no attempt is pending.
abbrev StepSafe : OtaEnv → Job → HeaderStep → Type 0
StepSafe e t (stop s) = IsSafe e t s
StepSafe e t (go n s) = IsSafe e t s × (IsAwake s)

module _ (e : OtaEnv) (t : Job) where
  whole_image-StepSafe :
      (n : ℕ) (s : Ota) → IsSafe e t s → IsAwake s → StepSafe e t (whole_image n s)
  unfolding whole_image
  whole_image-StepSafe n s h r =
      let k = h.flash_kept in
      if_either (StepSafe e t) (ltb n min_firmware_size || ltb max_firmware_size n)
        (λ p. fail-IsSafe e t _ true s k)
        (λ p. (
          safe _
              (record {
                same = k.same;
                kept = omega arith;
                sized = ground (arith, p);
                staged = k.staged;
              })
              (inl (refl, rests s.ota_in_progress 0 (omega arith)), h.writer_fits.1),
          r,
        ))

  ranged_image-StepSafe :
      (n : ℕ) (range : Option (ℕ × ℕ × ℕ)) (s : Ota)
      → IsSafe e t s
      → IsAwake s
      → StepSafe e t (ranged_image n range s)
  unfolding ranged_image
  ranged_image-StepSafe n none s h r = fail-IsSafe e t _ true s h.flash_kept
  ranged_image-StepSafe n (some (start, end, total)) s h r =
      let k = h.flash_kept in
      if_all (StepSafe e t)
        (not (start == s.ota_request_offset) || (ltb end start || (total == 0 || leb total end)))
        (fail-IsSafe e t _ true s k)
        (if_either (StepSafe e t) (ltb total min_firmware_size || ltb max_firmware_size total)
          (λ p. fail-IsSafe e t _ true s k)
          (λ p.
            if_all (StepSafe e t) (not (n == (end - start + 1) % 2 ^ 32))
              (fail-IsSafe e t _ true s k)
              (if_all (StepSafe e t)
                (s.ota_firmware_size_known && not (s.ota_firmware_size == total))
                (fail-IsSafe e t _ true s k)
                (
                  safe _
                      (record {
                        same = k.same;
                        kept = k.kept;
                        sized = ground (arith, p);
                        staged = k.staged;
                      })
                      h.writer_fits,
                  r,
                ))))

  checked_header-StepSafe :
      (headers : Text) (code : ℕ) (n : Option ℕ) (s : Ota)
      → IsSafe e t s
      → IsAwake s
      → StepSafe e t (checked_header headers code n s)
  unfolding checked_header
  checked_header-StepSafe headers code none s h r = fail-IsSafe e t _ true s h.flash_kept
  checked_header-StepSafe headers code (some n) s h r =
      if_all (StepSafe e t) (code == 200)
        (whole_image-StepSafe n _ (safe _ h.flash_kept h.writer_fits) r)
        (ranged_image-StepSafe n _ _ (safe _ h.flash_kept h.writer_fits) r)

  checked_status-StepSafe :
      (headers : Text) (code : Option ℕ) (s : Ota)
      → IsSafe e t s
      → IsAwake s
      → StepSafe e t (checked_status headers code s)
  unfolding checked_status
  checked_status-StepSafe headers none s h r = fail-IsSafe e t _ true s h.flash_kept
  checked_status-StepSafe headers (some code) s h r =
      if_all (StepSafe e t) (not (code == 200) && not (code == 206))
        (fail-IsSafe e t _ true s h.flash_kept) (checked_header-StepSafe headers code _ s h r)

module _ (e : OtaEnv) (t : Job) (d : IsDevice e t) where
  body_of-IsSafe :
      (bytes : List ℕ) (total previous : ℕ) (s : Ota)
      → IsSafe e t s
      → IsAwake s
      → IsSafe e t (body_of e bytes total previous s)
  unfolding body_of
  body_of-IsSafe bytes total previous s h r =
      let fails = fail-IsSafe e t (codes "error_invalid_http_header") true s h.flash_kept in
      if_all (IsSafe e t) (ltb total previous) fails (
        if_all (IsSafe e t) (ltb (length bytes) (total - previous)) fails (
          if_all (IsSafe e t) (length (drop (total - previous) bytes) == 0) h
            (receive_body-IsSafe e t d _ s h r)))

  header_accepted-IsSafe :
      (bytes : List ℕ) (total previous : ℕ) (step : HeaderStep)
      → StepSafe e t step
      → IsSafe e t (header_accepted e bytes total previous step)
  unfolding header_accepted
  header_accepted-IsSafe bytes total previous (stop s) h = h
  header_accepted-IsSafe bytes total previous (go n s) h =
      body_of-IsSafe bytes total previous _ (safe _ h.0.flash_kept h.0.writer_fits) h.1

  header_ends-IsSafe :
      (bytes : List ℕ) (previous : ℕ) (marker : Option ℕ) (s : Ota)
      → IsSafe e t s
      → IsAwake s
      → IsSafe e t (header_ends e bytes previous marker s)
  unfolding header_ends
  header_ends-IsSafe bytes previous none s h r =
      if_all (IsSafe e t) (leb (ota_max_header_size - 1) (length s.header))
        (fail-IsSafe e t _ true s h.flash_kept) h
  header_ends-IsSafe bytes previous (some marker) s h r =
      header_accepted-IsSafe bytes _ previous _ (checked_status-StepSafe e t _ _ s h r)

  pub receive-IsSafe :
      (bytes : List ℕ) (s : Ota) → IsSafe e t s → IsSafe e t (ota_tcp_recv_cb e bytes s)
  unfolding ota_tcp_recv_cb receive_header
  receive-IsSafe bytes s h =
      if_either (IsSafe e t) (is_active s)
        (λ active.
          let r : IsAwake s = (ground (arith, active), ground (arith, active)) in
          if_all (IsSafe e t) s.headers_parsed
            (if_all (IsSafe e t) (length bytes == 0) (safe _ h.flash_kept h.writer_fits)
              (receive_body-IsSafe e t d bytes _ (safe _ h.flash_kept h.writer_fits) r))
            (header_ends-IsSafe bytes _ _ _ (safe _ h.flash_kept h.writer_fits) r))
        (λ idle. h)

-- ===== src/Ota/Staged.antt =====
-- An upgrade of user/ota.c stages an image only if it is complete and is the one that was asked for.
use meter_logger.Prelude.{
  subst, ℕ, ◌≡◌, refl, ap, ◌∙◌, Bool, true, false, Bool-cases, inl, inr, not, ◌&&◌, ◌||◌, if_all,
  if_either, ltb, ◌==◌, List, [], ◌∷◌, arith,
}
use meter_logger.Prelude.Text.{text_eq_iff}
use meter_logger.Sdk.{Timer, stopped, once, every, fire}
use meter_logger.Ota.State.{
  FlashCall, write_end, set_temp_rom, OtaEnv, Ota, min_firmware_size, is_active, has_check,
  ota_cleanup_timers, ota_incomplete_http_response,
}
use meter_logger.Ota.Retry.{ota_timeout_timer_cb, ota_progress_timer_cb}
use meter_logger.Ota.Connect.{ota_retry_timer_cb}
use meter_logger.Ota.Complete.{
  ota_schedule_range_continue, is_complete, is_matched, succeed, stage, finish_image, is_range_done,
  unfinished, ota_tcp_discon_cb,
}
use meter_logger.Ota.Run.{
  OtaEvent, timeout_timer, retry_timer, progress_timer, dns_found, connected, reconnected,
  disconnected, received, fired, ota_step, ota_run,
}
use meter_logger.Ota.Image.{
  Job, job_of, image, IsDevice, expected, Digested, IsGood, Hashed, IsKept, IsSynced, Fits, Pends,
  FlashKept, IsSafe, safe,
}
use meter_logger.Ota.Safe.{
  fail-IsSafe, reconnect-IsSafe, timeout-IsSafe, progress-IsSafe, recon-IsSafe, connect-IsSafe,
  dns_found-IsSafe, retry-IsSafe,
}
use meter_logger.Ota.Written.{writer-IsSynced}
use meter_logger.Ota.Accepted.{receive-IsSafe}

module _ (e : OtaEnv) (t : Job) where
  -- An upgrade that has ended needs no sector to go on at.
  halted :
      (progress valid retry again : Bool) (n : ℕ) (ctx : List ℕ) (h : List FlashCall)
      → Fits e t progress valid retry again n ctx h
      → Fits e t false valid retry again n ctx h
  halted progress valid retry again n ctx h (inl w) = inl (w.0, _)
  halted progress valid retry again n ctx h (inr w) = inr w

  succeed-IsSafe : (s : Ota) → IsSafe e t s → IsSafe e t (succeed e s)
  unfolding succeed
  succeed-IsSafe s h = elim (Bool-cases (ltb s.ota_last_reported_progress 100)) [
    | inl p ↦ rw p (safe _ h.flash_kept (halted _ _ _ _ _ _ _ h.writer_fits.0, h.writer_fits.1))
    | inr p ↦ rw p (safe _ h.flash_kept (halted _ _ _ _ _ _ _ h.writer_fits.0, h.writer_fits.1))
  ]

matched-expected :
    (e : OtaEnv) (s : Ota) → is_matched e s ≡ true → e.sha256 s.ota_sha_ctx ≡ expected (job_of s)
matched-expected e s h = ground (
  arith,
  h,
  text_eq_iff (e.sha256 s.ota_sha_ctx) s.expected_sha256_1,
  text_eq_iff (e.sha256 s.ota_sha_ctx) s.expected_sha256_2,
)

-- The hash was compared, if one is expected.
matched-Digested :
    (b : Bool) (e : OtaEnv) (t : Job) (ctx m : List ℕ)
    → Hashed b ctx m
    → (b ≡ true → e.sha256 ctx ≡ expected t)
    → Digested b e t m
matched-Digested true e t ctx m h k = rw (← h) (k refl)
matched-Digested false e t ctx m h k = _

module _ (e : OtaEnv) (t : Job) where
  stage-IsSafe :
      (s : Ota)
      → FlashKept e t s
      → IsSynced e t s.ota_received_bytes s.ota_sha_ctx s.flash
      → (s.ota_retry_pending ≡ true → s.ota_continue_pending ≡ true)
      → s.is_valid_binary ≡ true
      → Pends s.ota_retry_timer s.ota_retry_pending
      → IsGood e t (image e t s.flash)
      → IsSafe e t (stage e s)
  unfolding stage
  stage-IsSafe s k y r v q g =
      let rom = ap (λ j. j.0) k.same in
      let kept : IsKept e t _ s.ota_received_bytes s.ota_firmware_size
          (set_temp_rom s.ota_target_rom ∷ s.flash) =
        record {
          same = k.same;
          kept = k.kept;
          sized = k.sized;
          staged = ((rom, g, k.staged.0), k.staged.1);
        } in
      if_all (IsSafe e t) (e.flash_ok (set_temp_rom s.ota_target_rom ∷ s.flash))
        (succeed-IsSafe e t _ (
          safe _ kept (
            inr (inr (record { opened = y.opened; at_end = y.at_end; hashed = y.hashed }, r, v)),
            q,
          )))
        (fail-IsSafe e t _ false _ kept)

  is_expected :
      (s : Ota)
      → FlashKept e t s
      → (has_check s && not (is_matched e s)) ≡ false
      → t.1 ≡ true
      → e.sha256 s.ota_sha_ctx ≡ expected t
  is_expected s k m c =
      let check : has_check s ≡ true = ap (λ j. j.1) k.same ∙ c in
      let unmatched : not (is_matched e s) ≡ false = rw check at m in
      let matched : is_matched e s ≡ true = ground (arith, unmatched) in
      matched-expected e s matched ∙ ap expected k.same

  -- The writer for another range.
  writer-Fits :
      (s : Ota)
      → IsSafe e t s
      → s.ota_retry_pending ≡ false
      → Fits e t s.ota_in_progress s.is_valid_binary true true s.ota_received_bytes s.ota_sha_ctx
          s.flash
  writer-Fits s h r = elim h.writer_fits.0 [
    | inl no_writer ↦ inl no_writer
    | inr (inl p) ↦ absurd (cc (p.0, r))
    | inr (inr y) ↦ inr (inr (y.0, (λ x. refl), y.2))
  ]

  finish_image-IsSafe :
      (s : Ota)
      → FlashKept e t s
      → IsSynced e t s.ota_received_bytes s.ota_sha_ctx s.flash
      → s.ota_retry_pending ≡ false
      → s.is_valid_binary ≡ true
      → IsSafe e t (finish_image e s)
  unfolding finish_image ota_cleanup_timers
  finish_image-IsSafe s k y r v =
      let kept : IsKept e t _ s.ota_received_bytes s.ota_firmware_size (write_end ∷ s.flash) =
        record { same = k.same; kept = k.kept; sized = k.sized; staged = k.staged } in
      if_all (IsSafe e t) (not (e.flash_ok (write_end ∷ s.flash))) (fail-IsSafe e t _ false _ kept)
        (if_either (IsSafe e t) (ltb s.ota_received_bytes min_firmware_size)
          (λ p. fail-IsSafe e t _ false _ kept)
          (λ large.
            if_either (IsSafe e t) (not (s.ota_received_bytes == s.ota_firmware_size))
              (λ p. fail-IsSafe e t _ false _ kept)
              (λ whole.
                if_either (IsSafe e t) (has_check s && not (is_matched e s))
                  (λ p. fail-IsSafe e t _ false _ kept)
                  (λ matched.
                    stage-IsSafe _ kept
                      (record { opened = y.opened; at_end = y.at_end; hashed = y.hashed })
                      (λ x. absurd (cc (x, r))) v _
                      (record {
                        not_small = ground (arith, large, y.at_end);
                        not_large = ground (arith, whole, y.at_end, k.sized);
                        digested =
                            matched-Digested (t.1) e t s.ota_sha_ctx (image e t s.flash) y.hashed
                              (λ c. is_expected s k matched c);
                      })))))

  unfinished-IsSafe : (s : Ota) → IsSafe e t s → IsSafe e t (unfinished e s)
  unfolding unfinished ota_schedule_range_continue
  unfinished-IsSafe s h =
      if_all (IsSafe e t) (ota_incomplete_http_response s) (reconnect-IsSafe e t _ s h) (
        if_all (IsSafe e t) (not s.headers_parsed || not s.ota_response_length_known)
          (reconnect-IsSafe e t _ _ (safe _ h.flash_kept h.writer_fits))
          (if_all (IsSafe e t) (is_range_done s)
            (if_either (IsSafe e t) (is_active s)
              (λ active. safe _ h.flash_kept (writer-Fits s h (ground (arith, active)), refl))
              (λ idle. h))
            (reconnect-IsSafe e t _ s h)))

module _ (e : OtaEnv) (t : Job) (d : IsDevice e t) where
  disconnected-IsSafe : (s : Ota) → IsSafe e t s → IsSafe e t (ota_tcp_discon_cb e s)
  unfolding ota_tcp_discon_cb
  disconnected-IsSafe s h =
      if_either (IsSafe e t) (is_active s)
        (λ active.
          if_either (IsSafe e t) (is_complete s)
            (λ complete.
              let y =
                writer-IsSynced e t d s h (ground (arith, active)) (ground (arith, complete)) in
              finish_image-IsSafe e t _ h.flash_kept y (ground (arith, active))
                (ground (arith, complete)))
            (λ p. unfinished-IsSafe e t _ (safe _ h.flash_kept h.writer_fits)))
        (λ idle. h)

  -- A timer keeps it, if its handler does.
  fired-IsSafe :
      (timer : Timer) (f : Ota → Ota) (s : Ota)
      → IsSafe e t s
      → IsSafe e t (f s)
      → IsSafe e t (fired timer f s)
  fired-IsSafe stopped f s h k = h
  fired-IsSafe (once ms) f s h k = k
  fired-IsSafe (every ms) f s h k = k

  -- The timer for another attempt is armed once, for an attempt that is pending.
  retry_fired :
      (timer : Timer) (s : Ota)
      → s.ota_retry_timer ≡ timer
      → IsSafe e t s
      → IsSafe e t (fired timer (ota_retry_timer_cb e) (record s { ota_retry_timer = fire timer }))
  retry_fired stopped s n h = safe _ h.flash_kept (h.writer_fits.0, _)
  retry_fired (once ms) s n h =
      let r : s.ota_retry_pending ≡ true =
        subst (λ q. Pends q s.ota_retry_pending) n h.writer_fits.1 in
      retry-IsSafe e t _ (safe _ h.flash_kept (h.writer_fits.0, _)) r refl
  retry_fired (every ms) s n h = absurd (subst (λ q. Pends q s.ota_retry_pending) n h.writer_fits.1)

  step-IsSafe : (v : OtaEvent) (s : Ota) → IsSafe e t s → IsSafe e t (ota_step e v s)
  unfolding ota_step
  step-IsSafe timeout_timer s h =
      let h' =
        safe (record s { ota_timeout_timer = fire s.ota_timeout_timer }) h.flash_kept
          h.writer_fits in
      fired-IsSafe _ (ota_timeout_timer_cb e) _ h' (timeout-IsSafe e t _ h')
  step-IsSafe retry_timer s h = retry_fired s.ota_retry_timer s refl h
  step-IsSafe progress_timer s h =
      fired-IsSafe _ (ota_progress_timer_cb e) s h (progress-IsSafe e t s h)
  step-IsSafe (dns_found b) s h = dns_found-IsSafe e t b s h
  step-IsSafe connected s h = connect-IsSafe e t s h
  step-IsSafe reconnected s h = recon-IsSafe e t s h
  step-IsSafe disconnected s h = disconnected-IsSafe s h
  step-IsSafe (received bytes) s h = receive-IsSafe e t d bytes s h

  pub run-IsSafe : (vs : List OtaEvent) (s : Ota) → IsSafe e t s → IsSafe e t (ota_run e vs s)
  run-IsSafe [] s h = h
  run-IsSafe (v ∷ vs) s h = run-IsSafe vs (ota_step e v s) (step-IsSafe v s h)

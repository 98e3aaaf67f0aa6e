-- ===== src/Ota/Liveness.antt =====
-- Every run of an upgrade of user/ota.c goes on.
use meter_logger.Prelude.{
  ◌≤◌, ◌≡◌, refl, ◌∙◌, subst, Bool, true, false, Bool-cases, inl, inr, not, ◌&&◌, ◌||◌, if_all,
  if_either, ltb, ◌==◌, Option, none, some, List, [], ◌∷◌, arith,
}
use meter_logger.Prelude.Text.{Text}
use meter_logger.Sdk.{Timer, stopped, once, every, fire}
use meter_logger.Ota.State.{
  write_end, set_temp_rom, OtaEnv, Ota, min_firmware_size, is_active, has_check, ota_cleanup_timers,
  ota_incomplete_http_response,
}
use meter_logger.Ota.Complete.{
  ota_schedule_range_continue, is_complete, is_matched, succeed, stage, finish_image, is_range_done,
  unfinished, ota_tcp_discon_cb,
}
use meter_logger.Ota.Url.{Authority, refused, bad_port, named}
use meter_logger.Ota.Start.{
  ota_parse_sha256, fresh, digests, start_path, start_authority, start_url, short_url,
  start_ota_update,
}
use meter_logger.Ota.Run.{
  OtaEvent, timeout_timer, retry_timer, progress_timer, dns_found, connected, reconnected,
  disconnected, received, fired, ota_step, ota_run,
}
use meter_logger.Ota.Retry.{ota_timeout_timer_cb, ota_progress_timer_cb}
use meter_logger.Ota.Connect.{ota_retry_timer_cb}
use meter_logger.Ota.Progress.{
  Continues, GoesOn, on, fail-GoesOn, reconnect-GoesOn, timeout-GoesOn, progress-GoesOn,
  recon-GoesOn, connect-GoesOn, dns_found-GoesOn, start_lookup-GoesOn, retry-GoesOn,
}
use meter_logger.Ota.Arrival.{receive-GoesOn}

succeed-GoesOn : (e : OtaEnv) (s : Ota) → s.ota_retry_count ≤ 5 → GoesOn (succeed e s)
unfolding succeed
succeed-GoesOn e s r = elim (Bool-cases (ltb s.ota_last_reported_progress 100)) [
  | inl p ↦ rw p (on _ _ r)
  | inr p ↦ rw p (on _ _ r)
]

finish_image-GoesOn : (e : OtaEnv) (s : Ota) → s.ota_retry_count ≤ 5 → GoesOn (finish_image e s)
unfolding finish_image stage ota_cleanup_timers
finish_image-GoesOn e s r =
    if_all GoesOn (not (e.flash_ok (write_end ∷ s.flash))) (fail-GoesOn _ false _ r) (
      if_all GoesOn (ltb s.ota_received_bytes min_firmware_size) (fail-GoesOn _ false _ r) (
        if_all GoesOn (not (s.ota_received_bytes == s.ota_firmware_size)) (fail-GoesOn _ false _ r)
          (if_all GoesOn (has_check s && not (is_matched e s)) (fail-GoesOn _ false _ r) (
            if_all GoesOn (e.flash_ok (set_temp_rom s.ota_target_rom ∷ (write_end ∷ s.flash)))
              (succeed-GoesOn e _ r) (fail-GoesOn _ false _ r)))))

unfinished-GoesOn :
    (e : OtaEnv) (s : Ota) → is_active s ≡ true → s.ota_retry_count ≤ 5 → GoesOn (unfinished e s)
unfolding unfinished ota_schedule_range_continue
unfinished-GoesOn e s a r =
    if_all GoesOn (ota_incomplete_http_response s) (reconnect-GoesOn e _ s a r) (
      if_all GoesOn (not s.headers_parsed || not s.ota_response_length_known)
        (reconnect-GoesOn e _ _ a r)
        (if_all GoesOn (is_range_done s)
          (if_either GoesOn (is_active s)
            (λ b. let p : s.ota_in_progress ≡ true = ground (arith, b) in on _ (rw p _) r)
            (λ b. absurd (cc (a, b))))
          (reconnect-GoesOn e _ s a r)))

disconnected-GoesOn : (e : OtaEnv) (s : Ota) → GoesOn s → GoesOn (ota_tcp_discon_cb e s)
unfolding ota_tcp_discon_cb
disconnected-GoesOn e s h =
    if_either GoesOn (is_active s)
      (λ a.
        if_all GoesOn (is_complete s) (finish_image-GoesOn e _ h.retries)
          (unfinished-GoesOn e _ a h.retries))
      (λ a. h)

fired-GoesOn :
    (timer : Timer) (f : Ota → Ota) (s : Ota)
    → (timer ≡ stopped → GoesOn s)
    → GoesOn (f s)
    → GoesOn (fired timer f s)
fired-GoesOn stopped f s h k = h refl
fired-GoesOn (once ms) f s h k = k
fired-GoesOn (every ms) f s h k = k

still_stopped : (timer : Timer) → timer ≡ stopped → timer ≡ fire timer
still_stopped timer t = rw t refl

step-GoesOn : (e : OtaEnv) (v : OtaEvent) (s : Ota) → GoesOn s → GoesOn (ota_step e v s)
unfolding ota_step
step-GoesOn e timeout_timer s h =
    fired-GoesOn s.ota_timeout_timer (ota_timeout_timer_cb e) _
      (λ t.
        on _
          (subst (λ timer. Continues s.ota_in_progress s.ota_retry_pending timer s.ota_retry_timer)
            (still_stopped _ t) h.continues)
          h.retries)
      (timeout-GoesOn e s h)
step-GoesOn e retry_timer s h =
    fired-GoesOn s.ota_retry_timer (ota_retry_timer_cb e) _
      (λ t.
        on _
          (subst (Continues s.ota_in_progress s.ota_retry_pending s.ota_timeout_timer)
            (still_stopped _ t) h.continues)
          h.retries)
      (retry-GoesOn e s h)
step-GoesOn e progress_timer s h =
    fired-GoesOn s.ota_progress_timer (ota_progress_timer_cb e) s (λ t. h) (progress-GoesOn e s h)
step-GoesOn e (dns_found b) s h = dns_found-GoesOn e b s h
step-GoesOn e connected s h = connect-GoesOn e s h
step-GoesOn e reconnected s h = recon-GoesOn e s h
step-GoesOn e disconnected s h = disconnected-GoesOn e s h
step-GoesOn e (received bytes) s h = receive-GoesOn e bytes s h

run-GoesOn : (e : OtaEnv) (vs : List OtaEvent) (s : Ota) → GoesOn s → GoesOn (ota_run e vs s)
run-GoesOn e [] s h = h
run-GoesOn e (v ∷ vs) s h = run-GoesOn e vs (ota_step e v s) (step-GoesOn e v s h)

-- An upgrade that was set back, before the name of its server is looked up.
record IsFresh (s : Ota) : Type 0 where
  fresh_progress : s.ota_in_progress ≡ true
  fresh_pending : s.ota_retry_pending ≡ false
  fresh_count : s.ota_retry_count ≤ 5

start_path-GoesOn :
    (e : OtaEnv) (path : Option Text) (s : Ota) → IsFresh s → GoesOn (start_path e path s).1
unfolding start_path
start_path-GoesOn e none s h = fail-GoesOn _ false s h.fresh_count
start_path-GoesOn e (some path) s h =
    start_lookup-GoesOn e _ h.fresh_progress h.fresh_pending h.fresh_count

still-IsFresh :
    (s q : Ota)
    → IsFresh s
    → q.ota_in_progress ≡ s.ota_in_progress
    → q.ota_retry_pending ≡ s.ota_retry_pending
    → q.ota_retry_count ≡ s.ota_retry_count
    → IsFresh q
still-IsFresh s q h a b c = record {
  fresh_progress = a ∙ h.fresh_progress;
  fresh_pending = b ∙ h.fresh_pending;
  fresh_count = omega (arith, c, h.fresh_count);
}

start_authority-GoesOn :
    (e : OtaEnv) (p : Text) (a : Authority) (s : Ota)
    → IsFresh s
    → GoesOn (start_authority e p a s).1
unfolding start_authority
start_authority-GoesOn e p refused s h = fail-GoesOn _ false s h.fresh_count
start_authority-GoesOn e p (bad_port host) s h = fail-GoesOn _ false _ h.fresh_count
start_authority-GoesOn e p (named host none) s h =
    start_path-GoesOn e _ _ (still-IsFresh s _ h refl refl refl)
start_authority-GoesOn e p (named host (some port)) s h =
    start_path-GoesOn e _ _ (still-IsFresh s _ h refl refl refl)

start_url-GoesOn : (e : OtaEnv) (p : Option Text) (s : Ota) → IsFresh s → GoesOn (start_url e p s).1
unfolding start_url
start_url-GoesOn e none s h = fail-GoesOn _ false s h.fresh_count
start_url-GoesOn e (some p) s h = start_authority-GoesOn e p _ s h

digests-IsFresh :
    (hex_1 hex_2 : Option Text) (s : Ota) → IsFresh s → IsFresh (digests hex_1 hex_2 s).1
unfolding digests
digests-IsFresh hex_1 hex_2 s h =
    if_all (λ (q : Bool × Ota). IsFresh q.1) (ota_parse_sha256 hex_1 s.expected_sha256_1).0
      (still-IsFresh s _ h refl refl refl) (still-IsFresh s _ h refl refl refl)

start-GoesOn :
    (e : OtaEnv) (client : Bool) (url hex_1 hex_2 : Option Text) (s : Ota)
    → GoesOn (start_ota_update e client url hex_1 hex_2 s).1
unfolding start_ota_update fresh ota_cleanup_timers
start-GoesOn e client url hex_1 hex_2 s =
    let f =
      digests-IsFresh hex_1 hex_2 (fresh client s)
        (record { fresh_progress = refl; fresh_pending = refl; fresh_count = omega arith }) in
    if_all (λ (q : Bool × Ota). GoesOn q.1) (digests hex_1 hex_2 (fresh client s)).0
      (start_url-GoesOn e (short_url url) _ (still-IsFresh _ _ f refl refl refl))
      (fail-GoesOn _ false _ f.fresh_count)

-- In every run of an upgrade from `start_ota_update` on, as long as it is in progress, a timer is armed that goes
-- on with it, the one for another attempt if one is pending and else the timeout, and there were at most five
-- further attempts.
pub upgrade-GoesOn :
    (e : OtaEnv) (client : Bool) (url hex_1 hex_2 : Option Text) (s : Ota) (vs : List OtaEvent)
    → GoesOn (ota_run e vs (start_ota_update e client url hex_1 hex_2 s).1)
upgrade-GoesOn e client url hex_1 hex_2 s vs =
    run-GoesOn e vs _ (start-GoesOn e client url hex_1 hex_2 s)

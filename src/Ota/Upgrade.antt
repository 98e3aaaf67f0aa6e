-- ===== src/Ota/Upgrade.antt =====
-- Upgrades of user/ota.c from `start_ota_update` on.
use meter_logger.Prelude.{
  ◌≡◌, refl, sym, subst, Bool, false, if_all, if◌then◌else◌, ◌==◌, inl, Option, none, some, List,
  [], arith,
}
use meter_logger.Prelude.Text.{Text}
use meter_logger.Ota.State.{OtaEnv, Ota, has_check, ota_cleanup_timers}
use meter_logger.Ota.Url.{Authority, refused, bad_port, named}
use meter_logger.Ota.Start.{
  ota_parse_sha256, fresh, digests, invalid_url, start_path, start_authority, start_url, short_url,
  start_ota_update,
}
use meter_logger.Ota.Run.{OtaEvent, ota_run}
use meter_logger.Sdk.{stopped}
use meter_logger.Ota.Image.{
  Job, rests, IsOrdered, base_of, job_of, IsDevice, AllStagedGood, FlashKept, IsSafe, safe,
}
use meter_logger.Ota.Safe.{fail-IsSafe, start_lookup-IsSafe}
use meter_logger.Ota.Staged.{run-IsSafe}

module _ (e : OtaEnv) (t : Job) where
  invalid_url-IsSafe : (s : Ota) → IsSafe e t s → IsSafe e t (invalid_url s).1
  invalid_url-IsSafe s h = fail-IsSafe e t _ false s h.flash_kept

  start_path-IsSafe :
      (path : Option Text) (s : Ota) → IsSafe e t s → IsSafe e t (start_path e path s).1
  unfolding start_path
  start_path-IsSafe none s h = invalid_url-IsSafe s h
  start_path-IsSafe (some path) s h = start_lookup-IsSafe e t _ (safe _ h.flash_kept h.writer_fits)

  start_authority-IsSafe :
      (p : Text) (a : Authority) (s : Ota) → IsSafe e t s → IsSafe e t (start_authority e p a s).1
  unfolding start_authority
  start_authority-IsSafe p refused s h = invalid_url-IsSafe s h
  start_authority-IsSafe p (bad_port host) s h =
      invalid_url-IsSafe _ (safe _ h.flash_kept h.writer_fits)
  start_authority-IsSafe p (named host none) s h =
      start_path-IsSafe _ _ (safe _ h.flash_kept h.writer_fits)
  start_authority-IsSafe p (named host (some port)) s h =
      start_path-IsSafe _ _ (safe _ h.flash_kept h.writer_fits)

  start_url-IsSafe : (p : Option Text) (s : Ota) → IsSafe e t s → IsSafe e t (start_url e p s).1
  unfolding start_url
  start_url-IsSafe none s h = invalid_url-IsSafe s h
  start_url-IsSafe (some p) s h = start_authority-IsSafe p _ s h

-- Nothing was received or written.
record IsBlank (s : Ota) : Type 0 where
  blank_flash : s.flash ≡ []
  blank_received : s.ota_received_bytes ≡ 0
  blank_size : s.ota_firmware_size ≡ 0
  blank_writer : s.is_valid_binary ≡ false
  blank_timer : s.ota_retry_timer ≡ stopped

digests-IsBlank :
    (hex_1 hex_2 : Option Text) (s : Ota) → IsBlank s → IsBlank (digests hex_1 hex_2 s).1
unfolding digests
digests-IsBlank hex_1 hex_2 s h =
    if_all (λ (q : Bool × Ota). IsBlank q.1) (ota_parse_sha256 hex_1 s.expected_sha256_1).0
      (record {
        blank_flash = h.blank_flash;
        blank_received = h.blank_received;
        blank_size = h.blank_size;
        blank_writer = h.blank_writer;
        blank_timer = h.blank_timer;
      })
      (record {
        blank_flash = h.blank_flash;
        blank_received = h.blank_received;
        blank_size = h.blank_size;
        blank_writer = h.blank_writer;
        blank_timer = h.blank_timer;
      })

blank-Kept : (e : OtaEnv) (s : Ota) → IsBlank s → FlashKept e (job_of s) s
blank-Kept e s h = record {
  same = refl;
  kept = omega (arith, h.blank_received);
  sized = omega (arith, h.blank_size);
  staged =
      subst (λ q. AllStagedGood e (job_of s) q × IsOrdered (base_of e (job_of s)) q)
        (sym h.blank_flash) _;
}

-- The upgrade is for what it has stored.
stored : (e : OtaEnv) (t : Job) (q : Ota) → IsSafe e t q → IsSafe e (job_of q) q
stored e t q h = subst (λ j. IsSafe e j q) (sym h.flash_kept.same) h

start-IsSafe :
    (e : OtaEnv) (client : Bool) (url hex_1 hex_2 : Option Text) (s : Ota)
    → s.flash ≡ []
    → let q = (start_ota_update e client url hex_1 hex_2 s).1 in IsSafe e (job_of q) q
unfolding start_ota_update fresh ota_cleanup_timers
start-IsSafe e client url hex_1 hex_2 s f =
    let blank = digests-IsBlank hex_1 hex_2 (fresh client s) (record {
      blank_flash = f;
      blank_received = refl;
      blank_size = refl;
      blank_writer = refl;
      blank_timer = refl;
    }) in
    let d = (digests hex_1 hex_2 (fresh client s)).1 in
    let hashed : Ota = record d {
      ota_sha_ctx = if has_check d then [] else d.ota_sha_ctx;
      ota_target_rom = if e.current_rom == 0 then 1 else 0;
    } in
    let kept = blank-Kept e hashed (record {
      blank_flash = blank.blank_flash;
      blank_received = blank.blank_received;
      blank_size = blank.blank_size;
      blank_writer = blank.blank_writer;
      blank_timer = blank.blank_timer;
    }) in
    if_all (λ (q : Bool × Ota). IsSafe e (job_of q.1) q.1) (digests hex_1 hex_2 (fresh client s)).0
      (stored e (job_of hashed) _ (
        start_url-IsSafe e (job_of hashed) (short_url url) hashed (
          safe hashed kept (
            (inl (
              blank.blank_writer,
              rests hashed.ota_in_progress _ (omega (arith, blank.blank_received)),
            )),
            (rw blank.blank_timer _),
          ))))
      (stored e _ _ (fail-IsSafe e _ _ false _ (blank-Kept e _ blank)))

-- In every run of an upgrade from `start_ota_update` on, with no call of the flash before it, and for a ROM that begins
-- with a sector within 32 bits of address, each ROM that is staged for the next boot is the one that the upgrade is
-- for, and the image that then stands there has 100 KB to 420 KB and, if a hash is checked, the hash that is
-- expected for this ROM. An erased sector loses its bytes; the flash is relied on to read back what stands before a
-- sector that was erased and at which the writer was started.
pub upgrade-AllStagedGood :
    (e : OtaEnv) (client : Bool) (url hex_1 hex_2 : Option Text) (s : Ota) (vs : List OtaEvent)
    → s.flash ≡ []
    → IsDevice e (job_of (start_ota_update e client url hex_1 hex_2 s).1)
    → let q = (start_ota_update e client url hex_1 hex_2 s).1 in
      AllStagedGood e (job_of q) (ota_run e vs q).flash
upgrade-AllStagedGood e client url hex_1 hex_2 s vs f d =
    let q = (start_ota_update e client url hex_1 hex_2 s).1 in
    (run-IsSafe e (job_of q) d vs q (start-IsSafe e client url hex_1 hex_2 s f)).flash_kept.staged.0

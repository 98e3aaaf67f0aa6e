-- ===== src/Ota/Written.antt =====
-- The receiver of user/ota.c writes and hashes what it receives, behind what was received.
use meter_logger.Prelude.{
  subst, ◌∷◌, ◌*◌, ℕ, ◌+◌, ◌-◌, ◌/◌, ◌%◌, ◌^◌, ◌≤◌, ◌≡◌, refl, sym, ap, ◌∙◌, Bool, true, false,
  Bool-cases, inl, inr, if◌then◌else◌, if_all, if_either, Option, none, some, List, [], ◌++◌,
  length, length-append, length-take, take, take_all, arith,
}
use meter_logger.Ota.State.{
  FlashCall, erase_sector, write_init, spi_sector_size, OtaEnv, Ota, max_firmware_size, has_check,
}
use meter_logger.Ota.Body.{
  rehash_loop, ota_rehash_flash, bytes_written, write_body, after_rehash, sector_erased,
  begin_writing, is_too_much, is_too_large, lacks_magic, receive_body,
}
use meter_logger.Ota.Image.{
  Job, base_of, image, IsOpen, IsOrdered, ReadsBack, IsDevice, Hashed, IsSynced, Rests, Pends,
  FlashKept, IsSafe, safe,
}
use meter_logger.Ota.Rehash.{rehash_loop_lem}
use meter_logger.Ota.Safe.{fail-IsSafe}

Hashed-append :
    (b : Bool) (ctx m bytes : List ℕ)
    → Hashed b ctx m
    → Hashed b (if b then ctx ++ bytes else ctx) (m ++ bytes)
Hashed-append true ctx m bytes h = rw h refl
Hashed-append false ctx m bytes h = _

-- The check is the same as at the start.
same_check : (e : OtaEnv) (t : Job) (s : Ota) → FlashKept e t s → has_check s ≡ t.1
same_check e t s k = ap (λ j. j.1) k.same

-- No other attempt is pending, while the upgrade is in progress.
abbrev pub IsAwake : Ota → Type 0
IsAwake s = (s.ota_retry_pending ≡ false) × (s.ota_in_progress ≡ true)

-- What the receiver relies on: no attempt is pending, and its timer is not armed.
abbrev IsIdle : Ota → Type 0
IsIdle s = (s.ota_retry_pending ≡ false) × Pends s.ota_retry_timer s.ota_retry_pending

module _ (e : OtaEnv) (t : Job) (d : IsDevice e t) where
  bytes_written-IsSafe :
      (b : Bool) (n : ℕ) (s : Ota)
      → IsIdle s
      → s.is_valid_binary ≡ true
      → IsOpen s.flash
      → FlashKept e t s
      → length (image e t s.flash) ≡ s.ota_received_bytes + n
      → Hashed (t.1) s.ota_sha_ctx (image e t s.flash)
      → s.ota_received_bytes + n ≤ max_firmware_size
      → IsSafe e t (bytes_written b n s)
  unfolding bytes_written
  bytes_written-IsSafe true n s i v o k l y b =
      let sum : length (image e t s.flash) ≡ (s.ota_received_bytes + n) % 2 ^ 32 =
        omega (arith, b, l) in
      safe _
        (record { same = k.same; kept = omega (arith, sum); sized = k.sized; staged = k.staged })
        (
          inr (
              inr
                (record { opened = o; at_end = sum; hashed = y }, (λ x. absurd (cc (x, i.0))), v)),
          i.1,
        )
  bytes_written-IsSafe false n s i v o k l y b = fail-IsSafe e t _ true s k

  write_body-IsSafe :
      (bytes : List ℕ) (s : Ota)
      → IsIdle s
      → s.is_valid_binary ≡ true
      → FlashKept e t s
      → IsSynced e t s.ota_received_bytes s.ota_sha_ctx s.flash
      → s.ota_received_bytes + length bytes ≤ max_firmware_size
      → IsSafe e t (write_body e bytes s)
  unfolding write_body
  write_body-IsSafe bytes s i v k y b =
      let more = length-append (image e t s.flash) bytes in
      let check = same_check e t s k in
      let hashed = Hashed-append (t.1) s.ota_sha_ctx (image e t s.flash) bytes y.hashed in
      let hashed' : Hashed (t.1) (if has_check s then s.ota_sha_ctx ++ bytes else s.ota_sha_ctx)
          (image e t s.flash ++ bytes) =
        rw check hashed in
      bytes_written-IsSafe _ (length bytes) _ i v y.opened
        (record {
          same = k.same;
          kept = omega (arith, more, k.kept);
          sized = k.sized;
          staged = (k.staged.0, (y.opened, k.staged.1));
        })
        (omega (arith, more, y.at_end)) hashed' b

  -- What the hash is, when it was made again.
  rehash-Hashed :
      (s : Ota) (c : List ℕ)
      → FlashKept e t s
      → s.ota_target_base_addr ≡ base_of e t
      → length (image e t s.flash) ≡ s.ota_received_bytes
      → ReadsBack e t s.flash
      → ota_rehash_flash e s ≡ some c
      → Hashed (t.1) c (image e t s.flash)
  unfolding ota_rehash_flash
  rehash-Hashed s c k a l reads r = elim (Bool-cases (t.1)) [
    | inr unchecked ↦ rw unchecked _
    | inl checked ↦
        (let whole : ota_rehash_flash e s
              ≡ rehash_loop (s.ota_received_bytes / 256 + 2) e s.flash s.ota_target_base_addr
                  (s.ota_target_base_addr + s.ota_received_bytes) [] =
            rw (same_check e t s k ∙ checked) refl in
          let start : base_of e t + 0 ≡ base_of e t = omega arith in
          let made : rehash_loop (s.ota_received_bytes / 256 + 2) e s.flash (base_of e t + 0)
                (base_of e t + s.ota_received_bytes) []
              ≡ some c =
            rw (start, ← a) (sym whole ∙ r) in
          rw checked (
            rehash_loop_lem (s.ota_received_bytes / 256 + 2) 0 s.ota_received_bytes e t s.flash [] c
              reads (omega (arith, l)) (omega arith) refl made
            ∙ take_all (image e t s.flash) s.ota_received_bytes (omega (arith, l))))
  ]

  after_rehash-IsSafe :
      (bytes : List ℕ) (o : Option (List ℕ)) (s : Ota)
      → IsIdle s
      → s.is_valid_binary ≡ true
      → IsOpen s.flash
      → ReadsBack e t s.flash
      → FlashKept e t s
      → s.ota_target_base_addr ≡ base_of e t
      → length (image e t s.flash) ≡ s.ota_received_bytes
      → ota_rehash_flash e s ≡ o
      → s.ota_received_bytes + length bytes ≤ max_firmware_size
      → IsSafe e t (after_rehash e bytes o s)
  unfolding after_rehash
  after_rehash-IsSafe bytes none s i v o reads k a l r b = fail-IsSafe e t _ true s k
  after_rehash-IsSafe bytes (some c) s i v o reads k a l r b =
      write_body-IsSafe bytes _ i v k
        (record { opened = o; at_end = l; hashed = rehash-Hashed s c k a l reads r }) b

  -- The sector at which the writer is started was erased.
  sector_erased-IsSafe :
      (bytes : List ℕ) (b : Bool) (n : ℕ) (h : List FlashCall) (s : Ota)
      → s.flash ≡ erase_sector n ∷ h
      → base_of e t + s.ota_received_bytes ≡ n * spi_sector_size
      → IsIdle s
      → s.is_valid_binary ≡ true
      → FlashKept e t s
      → s.ota_target_base_addr ≡ base_of e t
      → s.ota_received_bytes + length bytes ≤ max_firmware_size
      → IsSafe e t (sector_erased e bytes b (base_of e t + s.ota_received_bytes) s)
  unfolding sector_erased
  sector_erased-IsSafe bytes false n h s f w i v k a b = fail-IsSafe e t _ true s k
  sector_erased-IsSafe bytes true n h s f w i v k a b =
      let offset : base_of e t + s.ota_received_bytes - base_of e t ≡ s.ota_received_bytes =
        omega arith in
      let l : length (take (base_of e t + s.ota_received_bytes - base_of e t) (image e t s.flash))
          ≡ s.ota_received_bytes =
        rw offset (omega (arith, length-take s.ota_received_bytes (image e t s.flash), k.kept)) in
      let ordered : IsOrdered (base_of e t)
          (write_init (base_of e t + s.ota_received_bytes) ∷ s.flash) =
        (omega arith, omega (arith, k.kept), k.staged.1) in
      let ordered' : IsOrdered (base_of e t)
          (write_init (n * spi_sector_size) ∷ erase_sector n ∷ h) =
        rw (w, f) at ordered in
      let reads : ReadsBack e t (write_init (base_of e t + s.ota_received_bytes) ∷ s.flash) =
        rw (w, f) (d.reads_back n h ordered') in
      after_rehash-IsSafe bytes _ _ i v _ reads
        (record {
          same = k.same;
          kept = omega (arith, l);
          sized = k.sized;
          staged = (k.staged.0, ordered);
        })
        a l refl b

  begin_writing-IsSafe :
      (bytes : List ℕ) (s : Ota)
      → IsIdle s
      → s.ota_received_bytes % spi_sector_size ≡ 0
      → FlashKept e t s
      → s.ota_received_bytes + length bytes ≤ max_firmware_size
      → IsSafe e t (begin_writing e bytes s)
  unfolding begin_writing
  begin_writing-IsSafe bytes s i z k b =
      let rom = ap (λ j. j.0) k.same in
      let addr : (e.roms s.ota_target_rom + s.ota_received_bytes) % 2 ^ 32
          ≡ base_of e t + s.ota_received_bytes =
        rw rom (omega (arith, d.in_flash, b)) in
      let n = (base_of e t + s.ota_received_bytes) / spi_sector_size in
      let start : base_of e t + s.ota_received_bytes ≡ n * spi_sector_size =
        omega (arith, d.whole_sectors, z) in
      let l = length-take (n * spi_sector_size - base_of e t) (image e t s.flash) in
      rw addr (
        sector_erased-IsSafe bytes _ n s.flash _ refl start i refl
          (record {
            same = k.same;
            kept = omega (arith, l, start, k.kept);
            sized = k.sized;
            staged = k.staged;
          })
          (ap e.roms rom) b)

  -- A writer that is to be started is started at a sector.
  at_sector :
      (s : Ota)
      → IsSafe e t s
      → IsAwake s
      → s.is_valid_binary ≡ false
      → s.ota_received_bytes % spi_sector_size ≡ 0
  at_sector s h r v = elim h.writer_fits.0 [
    | inl w ↦ subst (λ q. Rests q s.ota_received_bytes) r.1 w.1
    | inr (inl p) ↦ p.2
    | inr (inr y) ↦ absurd (cc (y.2, v))
  ]

  -- With no attempt pending, a writer that was started stands behind what was received.
  pub writer-IsSynced :
      (s : Ota)
      → IsSafe e t s
      → s.ota_retry_pending ≡ false
      → s.is_valid_binary ≡ true
      → IsSynced e t s.ota_received_bytes s.ota_sha_ctx s.flash
  writer-IsSynced s h r v = elim h.writer_fits.0 [
    | inl no_writer ↦ absurd (cc (no_writer.0, v))
    | inr (inl p) ↦ absurd (cc (p.0, r))
    | inr (inr y) ↦ y.0
  ]

  pub receive_body-IsSafe :
      (bytes : List ℕ) (s : Ota) → IsSafe e t s → IsAwake s → IsSafe e t (receive_body e bytes s)
  unfolding receive_body
  receive_body-IsSafe bytes s h r =
      let k = h.flash_kept in
      let i : IsIdle s = (r.0, h.writer_fits.1) in
      if_all (IsSafe e t) (is_too_much (length bytes) s) (fail-IsSafe e t _ true s k) (
        if_either (IsSafe e t) (is_too_large (length bytes) s) (λ q. fail-IsSafe e t _ true s k)
          (λ q.
            let b : s.ota_received_bytes + length bytes ≤ max_firmware_size =
              ground (arith, q, k.sized) in
            if_either (IsSafe e t) s.is_valid_binary
              (λ v. write_body-IsSafe bytes s i v k (writer-IsSynced s h r.0 v) b)
              (λ v.
                if_all (IsSafe e t) (lacks_magic bytes s) (fail-IsSafe e t _ true s k)
                  (begin_writing-IsSafe bytes s i (at_sector s h r v) k b))))

-- ===== src/Ota/Image.antt =====
-- What an upgrade promises: the image that was written by the calls of user/ota.c, and when it may be staged.
use meter_logger.Sdk.{Timer, stopped, once, every}
use meter_logger.Prelude.{
  ◌*◌, ◌%◌, ℕ, ◌+◌, ◌-◌, ◌^◌, ◌≤◌, ◌<◌, ◌≡◌, Bool, true, false, ◌⊎◌, if◌then◌else◌, ◌==◌, some,
  List, [], ◌∷◌, ◌++◌, length, take, drop,
}
use meter_logger.Ota.State.{
  FlashCall, erase_sector, write_init, write_flash, write_end, set_temp_rom, OtaEnv, Ota,
  max_firmware_size, spi_sector_size, has_check,
}

-- The bytes of the image that were written from `base` on; behind them is what was there before, or what an erased
-- sector leaves. The last bytes of a write may wait in the writer of rBoot until its next call or its end.
abbrev pub image_of : ℕ → List FlashCall → List ℕ
image_of base [] = []
image_of base (erase_sector n ∷ h) = take (n * spi_sector_size - base) (image_of base h)
image_of base (write_init addr ∷ h) = take (addr - base) (image_of base h)
image_of base (write_flash bytes ∷ h) = image_of base h ++ bytes
image_of base (write_end ∷ h) = image_of base h
image_of base (set_temp_rom rom ∷ h) = image_of base h

-- The writer was started, and no sector was erased since.
abbrev pub IsOpen : List FlashCall → Type 0
IsOpen [] = ⊥
IsOpen (erase_sector n ∷ h) = ⊥
IsOpen (write_init addr ∷ h) = Unit {0}
IsOpen (write_flash bytes ∷ h) = IsOpen h
IsOpen (write_end ∷ h) = IsOpen h
IsOpen (set_temp_rom rom ∷ h) = IsOpen h

-- Each start of the writer is within the image or at its end, and what is written is written by a writer that was started.
abbrev pub IsOrdered : ℕ → List FlashCall → Type 0
IsOrdered base [] = Unit {0}
IsOrdered base (erase_sector n ∷ h) = IsOrdered base h
IsOrdered base (write_init addr ∷ h) =
    (base ≤ addr) × (addr ≤ base + length (image_of base h)) × IsOrdered base h
IsOrdered base (write_flash bytes ∷ h) = IsOpen h × IsOrdered base h
IsOrdered base (write_end ∷ h) = IsOrdered base h
IsOrdered base (set_temp_rom rom ∷ h) = IsOrdered base h

-- What an upgrade is for, and what stays as it is in it: the ROM, whether a hash is checked, and the hashes
-- that are expected for the two ROMs.
abbrev pub Job : Type 0
Job = ℕ × Bool × List ℕ × List ℕ

abbrev pub job_of : Ota → Job
job_of s = (s.ota_target_rom, has_check s, s.expected_sha256_1, s.expected_sha256_2)

abbrev pub base_of : OtaEnv → Job → ℕ
base_of e t = e.roms t.0

-- The image of the ROM that is upgraded.
abbrev pub image : OtaEnv → Job → List FlashCall → List ℕ
image e t h = image_of (base_of e t) h

-- What is read at an address is what was written there, as far as the image goes.
abbrev pub ReadsBack : OtaEnv → Job → List FlashCall → Type 0
ReadsBack e t h =
    (addr len : ℕ) (bytes : List ℕ)
    → e.flash_read h addr len ≡ some bytes
    → base_of e t ≤ addr
    → addr + len ≤ base_of e t + length (image e t h)
    → bytes ≡ take len (drop (addr - base_of e t) (image e t h))

-- What is relied on: the ROM lies within the addresses and begins with a sector; and when a sector was erased and the
-- writer was started at it, so that nothing is left in the writer, the flash reads back what stands before it.
pub record IsDevice (e : OtaEnv) (t : Job) : Type 0 where
  pub in_flash : base_of e t + max_firmware_size < 2 ^ 32
  pub whole_sectors : base_of e t % spi_sector_size ≡ 0
  pub reads_back :
      (n : ℕ) (h : List FlashCall)
      → IsOrdered (base_of e t) (write_init (n * spi_sector_size) ∷ erase_sector n ∷ h)
      → ReadsBack e t (write_init (n * spi_sector_size) ∷ erase_sector n ∷ h)

-- The digest that is expected for the ROM.
abbrev pub expected : Job → List ℕ
expected t = if t.0 == 0 then t.2 else t.3

abbrev pub Digested : Bool → OtaEnv → Job → List ℕ → Type 0
Digested true e t m = e.sha256 m ≡ expected t
Digested false e t m = Unit {0}

-- The image has a size in the limits, and the expected hash if one is checked.
pub record IsGood (e : OtaEnv) (t : Job) (m : List ℕ) : Type 0 where
  pub not_small : 102400 ≤ length m
  pub not_large : length m ≤ max_firmware_size
  pub digested : Digested t.1 e t m

-- At each call that stages a ROM, it is the one that is upgraded, and its image is good.
abbrev pub AllStagedGood : OtaEnv → Job → List FlashCall → Type 0
AllStagedGood e t [] = Unit {0}
AllStagedGood e t (erase_sector n ∷ h) = AllStagedGood e t h
AllStagedGood e t (write_init addr ∷ h) = AllStagedGood e t h
AllStagedGood e t (write_flash bytes ∷ h) = AllStagedGood e t h
AllStagedGood e t (write_end ∷ h) = AllStagedGood e t h
AllStagedGood e t (set_temp_rom rom ∷ h) =
    (rom ≡ t.0) × IsGood e t (image e t h) × AllStagedGood e t h

-- The part of the invariant that is about the flash, where `t` is what the upgrade is for.
pub record IsKept (e : OtaEnv) (t : Job) (job : Job) (received size : ℕ) (h : List FlashCall)
    : Type 0 where
  pub same : job ≡ t
  pub kept : received ≤ length (image e t h)
  pub sized : size ≤ max_firmware_size
  pub staged : AllStagedGood e t h × IsOrdered (base_of e t) h

abbrev pub Hashed : Bool → List ℕ → List ℕ → Type 0
Hashed true ctx m = ctx ≡ m
Hashed false ctx m = Unit {0}

-- The writer stands behind the bytes that were received, and these were hashed.
pub record IsSynced (e : OtaEnv) (t : Job) (received : ℕ) (ctx : List ℕ) (h : List FlashCall)
    : Type 0 where
  pub opened : IsOpen h
  pub at_end : length (image e t h) ≡ received
  pub hashed : Hashed (t.1) ctx (image e t h)

-- What was received ends with a sector, while the upgrade is in progress.
abbrev pub Rests : Bool → ℕ → Type 0
Rests false received = Unit {0}
Rests true received = received % spi_sector_size ≡ 0

pub rests : (b : Bool) (received : ℕ) → received % spi_sector_size ≡ 0 → Rests b received
rests false received h = _
rests true received h = h

-- The timer for another attempt is armed for one that is pending.
abbrev pub Pends : Timer → Bool → Type 0
Pends stopped retry = Unit {0}
Pends (once ms) retry = retry ≡ true
Pends (every ms) retry = ⊥

-- The writer was not started, is to be started again, or stands behind what was received.
abbrev pub Fits : OtaEnv → Job → Bool → Bool → Bool → Bool → ℕ → List ℕ → List FlashCall → Type 0
Fits e t progress valid retry again received ctx h =
    ((valid ≡ false) × Rests progress received)
    ⊎ ((retry ≡ true) × (again ≡ false) × (received % spi_sector_size ≡ 0))
    ⊎ (IsSynced e t received ctx h × (retry ≡ true → again ≡ true) × (valid ≡ true))

abbrev pub FlashKept : OtaEnv → Job → Ota → Type 0
FlashKept e t s = IsKept e t (job_of s) s.ota_received_bytes s.ota_firmware_size s.flash

abbrev pub WriterFits : OtaEnv → Job → Ota → Type 0
WriterFits e t s =
    Fits e t s.ota_in_progress s.is_valid_binary s.ota_retry_pending s.ota_continue_pending
      s.ota_received_bytes s.ota_sha_ctx s.flash
    × Pends s.ota_retry_timer s.ota_retry_pending

pub record IsSafe (e : OtaEnv) (t : Job) (s : Ota) : Type 0 where
  pub flash_kept : FlashKept e t s
  pub writer_fits : WriterFits e t s

pub safe : {e : OtaEnv} {t : Job} (s : Ota) → FlashKept e t s → WriterFits e t s → IsSafe e t s
safe s k w = record { flash_kept = k; writer_fits = w }

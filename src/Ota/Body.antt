-- ===== src/Ota/Body.antt =====
-- user/ota.c: the body of an answer, which is hashed and written to the flash.
use meter_logger.Prelude.{
  ℕ, zero, suc, ◌+◌, ◌-◌, ◌/◌, ◌%◌, ◌^◌, Bool, true, false, ◌&&◌, ◌||◌, not, Option, none, some,
  if◌then◌else◌, ltb, ◌==◌, List, [], ◌∷◌, ◌++◌, length, get_or,
}
use meter_logger.Prelude.Text.{codes}
use meter_logger.Ota.State.{
  FlashCall, erase_sector, write_init, write_flash, OtaEnv, Ota, spi_sector_size, max_firmware_size,
  has_check, ota_fail_update,
}

-- The loop over the flash in chunks of 256 bytes, from an address on.
unfoldable pub rehash_loop : ℕ → OtaEnv → List FlashCall → ℕ → ℕ → List ℕ → Option (List ℕ)
rehash_loop zero e flash addr end_addr ctx = none
rehash_loop (suc fuel) e flash addr end_addr ctx =
    let chunk_len = if ltb end_addr (addr + 256) then end_addr - addr else 256 in
    elim (ltb addr end_addr) [
      | false ↦ some ctx
      | true ↦ elim (e.flash_read flash addr chunk_len) [
        | none ↦ none
        | some buffer ↦ rehash_loop fuel e flash (addr + chunk_len) end_addr (ctx ++ buffer)
      ]
    ]

-- `ota_sha_ctx` after the hash of what was written so far; none is a read that failed.
unfoldable pub ota_rehash_flash : OtaEnv → Ota → Option (List ℕ)
ota_rehash_flash e s =
    let rehashed =
      rehash_loop (s.ota_received_bytes / 256 + 2) e s.flash s.ota_target_base_addr
        (s.ota_target_base_addr + s.ota_received_bytes) [] in
    if has_check s then rehashed else some s.ota_sha_ctx

-- So many bytes were written, or not.
unfoldable pub bytes_written : Bool → ℕ → Ota → Ota
bytes_written true n s = record s {
  ota_received_bytes = (s.ota_received_bytes + n) % 2 ^ 32;
  ota_response_received_bytes = (s.ota_response_received_bytes + n) % 2 ^ 32;
}
bytes_written false n s = ota_fail_update (codes "error_flash_write") true s

-- The bytes of a packet that can be written: they are hashed and written.
unfoldable pub write_body : OtaEnv → List ℕ → Ota → Ota
write_body e bytes s =
    let flash = write_flash bytes ∷ s.flash in
    bytes_written (e.flash_ok flash) (length bytes) (record s {
      ota_sha_ctx = if has_check s then s.ota_sha_ctx ++ bytes else s.ota_sha_ctx;
      flash = flash;
    })

-- The hash was made again, or not.
unfoldable pub after_rehash : OtaEnv → List ℕ → Option (List ℕ) → Ota → Ota
after_rehash e bytes none s = ota_fail_update (codes "error_flash_read") true s
after_rehash e bytes (some ctx) s = write_body e bytes (record s { ota_sha_ctx = ctx })

-- The sector was erased, or not: the writer starts at the address.
unfoldable pub sector_erased : OtaEnv → List ℕ → Bool → ℕ → Ota → Ota
sector_erased e bytes true addr s =
    let started : Ota = record s { flash = write_init addr ∷ s.flash } in
    after_rehash e bytes (ota_rehash_flash e started) started
sector_erased e bytes false addr s = ota_fail_update (codes "error_flash_erase") true s

-- The first bytes of an attempt: the sector is erased, and the writer starts behind what was received.
unfoldable pub begin_writing : OtaEnv → List ℕ → Ota → Ota
begin_writing e bytes s =
    let addr = (e.roms s.ota_target_rom + s.ota_received_bytes) % 2 ^ 32 in
    let flash = erase_sector (addr / spi_sector_size) ∷ s.flash in
    sector_erased e bytes (e.flash_ok flash) addr (record s {
      is_valid_binary = true;
      ota_target_base_addr = e.roms s.ota_target_rom;
      flash = flash;
    })

abbrev pub is_magic : ℕ → Bool
is_magic b = b == 0xe9 || b == 0xea

-- There are more bytes than the answer has.
abbrev pub is_too_much : ℕ → Ota → Bool
is_too_much n s =
    not s.ota_response_length_known
    || (ltb s.ota_response_length s.ota_response_received_bytes
        || ltb (s.ota_response_length - s.ota_response_received_bytes) n)

-- There are more bytes than the image has.
abbrev pub is_too_large : ℕ → Ota → Bool
is_too_large n s =
    not s.ota_firmware_size_known
    || (ltb s.ota_firmware_size s.ota_received_bytes
        || (ltb (s.ota_firmware_size - s.ota_received_bytes) n
            || ltb max_firmware_size ((s.ota_received_bytes + n) % 2 ^ 32)))

-- The image does not begin as an image does.
abbrev pub lacks_magic : List ℕ → Ota → Bool
lacks_magic bytes s = s.ota_received_bytes == 0 && not (is_magic (get_or bytes 0 0))

-- Bytes of the body, which are at least one.
unfoldable pub receive_body : OtaEnv → List ℕ → Ota → Ota
receive_body e bytes s =
    if is_too_much (length bytes) s
    then ota_fail_update (codes "error_response_too_large") true s
    else if is_too_large (length bytes) s
    then ota_fail_update (codes "error_file_too_large") true s
    else if s.is_valid_binary
    then write_body e bytes s
    else if lacks_magic bytes s
    then ota_fail_update (codes "error_invalid_magic") true s
    else begin_writing e bytes s

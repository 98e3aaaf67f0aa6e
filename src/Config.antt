-- ===== src/Config.antt =====
-- modules/config.c: the configuration in flash with its checksum. The module Checksum proves.
use meter_logger.Prelude.{ℕ, ◌+◌, ◌*◌, ◌^◌, Bool, true, false, not, if◌then◌else◌, ◌==◌, List}
use meter_logger.Sdk.{Timer, stopped, once}
use meter_logger.Crc.{ccit_crc16}
pub mod Checksum
pub mod Tests

-- `syscfg_t`: the bytes before its last field, and that field.
pub record SysCfg : Type 0 where
  pub content : List ℕ
  pub ccit_crc16 : ℕ

-- `sys_cfg`, what the flash holds at CFG_LOCATION, and the timer of a deferred save.
pub record Config : Type 0 where
  pub sys_cfg : SysCfg
  pub flash : SysCfg
  pub config_save_timer : Timer
  pub config_save_timer_running : Bool

-- What the code finds outside: whether an upgrade runs, what the flash holds after it was given a
-- configuration to save, and the bytes of the default configuration, which the build and the chip
-- determine.
pub record Outside : Type 0 where
  pub ota_in_progress : Bool
  pub system_param_save_with_protect : SysCfg → SysCfg
  pub default : List ℕ

-- `ccit_crc16(0xffff, (uint8_t *)&sys_cfg, offsetof(syscfg_t, ccit_crc16) - offsetof(syscfg_t, cfg_holder))`
abbrev pub checksum : SysCfg → ℕ
checksum c = ccit_crc16 0xffff c.content

-- `cfg_save(NULL, NULL)`
unfoldable pub save : Outside → Config → Bool × Config
save o s =
    if o.ota_in_progress
    then (false, s)
    else (let c = record s.sys_cfg { ccit_crc16 = checksum s.sys_cfg } in
        (true, record s { sys_cfg = c; flash = o.system_param_save_with_protect c }))

unfoldable pub cfg_load : Outside → Config → Config
cfg_load o s =
    let c = s.flash in
    let initial : SysCfg = record { content = o.default; ccit_crc16 = 0 } in
    if c.ccit_crc16 == checksum c
    then record s { sys_cfg = c }
    else (save o (record s { sys_cfg = initial })).1

-- `cfg_save` with both pointers: the answer, `*calculated_crc` and `*saved_crc`, which stay as they are
-- while an upgrade runs, and the configuration.
unfoldable pub cfg_save : Outside → ℕ → ℕ → Config → (Bool × ℕ × ℕ) × Config
cfg_save o calculated_crc saved_crc s =
    if o.ota_in_progress
    then ((false, calculated_crc, saved_crc), s)
    else (let t = (save o s).1 in
        let u = cfg_load o t in
        ((checksum u.sys_cfg == t.sys_cfg.ccit_crc16, checksum u.sys_cfg, t.sys_cfg.ccit_crc16), u))

unfoldable pub cfg_save_defered : Outside → Config → Config
cfg_save_defered o s = if o.ota_in_progress then s else record s { config_save_timer = once 2000 }

unfoldable pub config_save_timer_func : Outside → Config → Config
config_save_timer_func o s =
    if o.ota_in_progress
    then record s { config_save_timer = stopped; config_save_timer_running = false }
    else if s.config_save_timer_running
    then record s { config_save_timer = once 2000 }
    else (let s = record s { config_save_timer = stopped; config_save_timer_running = false } in
        (save o s).1)

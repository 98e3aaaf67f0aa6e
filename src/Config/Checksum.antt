-- ===== src/Config/Checksum.antt =====
-- What the checksum of modules/config.c does for the configuration.
use meter_logger.Prelude.{ℕ, ◌≡◌, ◌≢◌, true, false, List, ◌∷◌, ◌++◌, IsByte, IsBytes, arith}
use meter_logger.Sdk.{stopped, once}
use meter_logger.Crc.{ccit_crc16}
use meter_logger.Crc.Detect.{ccit_crc16_detects}
use meter_logger.Config.{
  SysCfg, Config, Outside, checksum, save, cfg_load, cfg_save, cfg_save_defered,
  config_save_timer_func,
}

-- The configuration in memory carries its checksum.
abbrev pub IsSealed : SysCfg → Type 0
IsSealed c = c.ccit_crc16 ≡ checksum c

-- The flash holds what it was given.
abbrev pub Holds : Outside → SysCfg → Type 0
Holds o c = o.system_param_save_with_protect c ≡ c

-- The configuration that a save writes.
abbrev pub saved : SysCfg → SysCfg
saved c = record c { ccit_crc16 = checksum c }

-- Loading leaves a configuration with its checksum, whatever the flash held, while no upgrade runs.
pub cfg_load-IsSealed :
    (o : Outside) (s : Config) → o.ota_in_progress ≡ false → IsSealed (cfg_load o s).sys_cfg
unfolding cfg_load save
cfg_load-IsSealed o s h = ground arith

-- Without an upgrade, with a flash that holds the configuration and no save deferred so far, a deferred save writes it when its
-- timer fires, and what is loaded afterwards is the configuration, with its checksum.
pub cfg_load-defered :
    (o : Outside) (s : Config)
    → o.ota_in_progress ≡ false
    → s.config_save_timer_running ≡ false
    → Holds o (saved s.sys_cfg)
    → let d = cfg_save_defered o s in
      let t = config_save_timer_func o d in
      (d.config_save_timer ≡ once 2000)
      × (t.config_save_timer ≡ stopped)
      × (t.flash ≡ saved s.sys_cfg)
      × ((cfg_load o t).sys_cfg ≡ saved s.sys_cfg)
unfolding cfg_save_defered config_save_timer_func save cfg_load
cfg_load-defered o s h r k = ground arith

-- A configuration of which the flash changed one byte is not taken: the default is loaded in its place.
pub cfg_load-damaged :
    (o : Outside) (s : Config) (before after : List ℕ) (x y : ℕ)
    → o.ota_in_progress ≡ false
    → IsByte x
    → IsByte y
    → IsBytes after
    → x ≢ y
    → s.flash ≡ record {
      content = before ++ y ∷ after;
      ccit_crc16 = ccit_crc16 0xffff (before ++ x ∷ after);
    }
    → (cfg_load o s).sys_cfg.content ≡ o.default
unfolding cfg_load save
cfg_load-damaged o s before after x y h p q b ne f =
    let d = ccit_crc16_detects 0xffff x y before after (omega arith) p q b ne in
    rw f (ground (arith, d))

-- With a flash that holds the configuration and no upgrade, a save that asks for the checksums answers
-- that both agree, and the configuration is in memory and in the flash, with its checksum.
pub cfg_save-Holds :
    (o : Outside) (calculated_crc saved_crc : ℕ) (s : Config)
    → o.ota_in_progress ≡ false
    → Holds o (saved s.sys_cfg)
    → let r = cfg_save o calculated_crc saved_crc s in
      (r.0 ≡ (true, checksum s.sys_cfg, checksum s.sys_cfg))
      × (r.1.sys_cfg ≡ saved s.sys_cfg)
      × (r.1.flash ≡ saved s.sys_cfg)
unfolding cfg_save save cfg_load
cfg_save-Holds o a b s h k = ground arith

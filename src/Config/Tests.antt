-- ===== src/Config/Tests.antt =====
-- Runs of modules/config.c with a configuration of three bytes.
use meter_logger.Prelude.{◌≡◌, refl, false, [], ◌∷◌, arith}
use meter_logger.Sdk.{stopped, once}
use meter_logger.Crc.{ccit_crc16}
use meter_logger.Config.{Config, Outside, cfg_load, cfg_save_defered, config_save_timer_func}
use meter_logger.Config.Checksum.{saved, cfg_load-defered, cfg_load-damaged}

-- A flash that holds what it is given.
abbrev intact : Outside
intact = record {
  ota_in_progress = false;
  system_param_save_with_protect = λ c. c;
  default = 0 ∷ 0 ∷ 1 ∷ [];
}

-- The second byte of the flash was 6.
abbrev config : Config
config = record {
  sys_cfg = record { content = 5 ∷ 6 ∷ 7 ∷ []; ccit_crc16 = 0 };
  flash = record { content = 5 ∷ 4 ∷ 7 ∷ []; ccit_crc16 = ccit_crc16 0xffff (5 ∷ 6 ∷ 7 ∷ []) };
  config_save_timer = stopped;
  config_save_timer_running = false;
}

cfg_load-damaged_example : (cfg_load intact config).sys_cfg.content ≡ 0 ∷ 0 ∷ 1 ∷ []
cfg_load-damaged_example =
    cfg_load-damaged intact config (5 ∷ []) (7 ∷ []) 6 4 refl (omega arith) (omega arith)
      (omega arith, tt) (omega arith) refl

cfg_load-defered_example :
    let d = cfg_save_defered intact config in
    let t = config_save_timer_func intact d in
    (d.config_save_timer ≡ once 2000)
    × (t.config_save_timer ≡ stopped)
    × (t.flash ≡ saved config.sys_cfg)
    × ((cfg_load intact t).sys_cfg ≡ saved config.sys_cfg)
cfg_load-defered_example = cfg_load-defered intact config refl refl refl

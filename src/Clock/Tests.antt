-- ===== src/Clock/Tests.antt =====
-- Runs of the clock and the uptime of user/unix_time.c.
use meter_logger.Prelude.{◌+◌, ◌≡◌, refl, [], ◌∷◌, arith}
use meter_logger.Sdk.{stopped}
use meter_logger.Clock.{Clock, get_unix_time, get_uptime, read_clock, sntp_check_timer_func}
use meter_logger.Clock.Follow.{read_at, read_at-IsFresh}
use meter_logger.Clock.Uptime.{uptime-continues}

-- The clock at the start, 40 s after boot.
abbrev pub booted : Clock
booted = record {
  init_time = 0;
  current_unix_time = 0;
  ntp_offline_second_counter = 40;
  last_sntp_raw = 0;
  epoch_overflow_offset = 0;
  sntp_check_timer = stopped;
  ntp_offline_second_counter_timer = stopped;
}

-- The clock 3 s before the rollover of SNTP.
abbrev late : Clock
late = record booted { init_time = 1700000000; last_sntp_raw = 0xfffffffd }

-- The second time is behind the rollover of the 32 bits of SNTP.
read_at-IsFresh_example :
    read_at (4294967290 ∷ 4294967300 ∷ []) booted ≡ 4294967290 ∷ 4294967300 ∷ []
read_at-IsFresh_example =
    read_at-IsFresh 4294967290 (4294967300 ∷ []) booted (refl, refl) (omega arith) (omega arith)
      (omega arith, omega arith, omega arith, omega arith, tt)

uptime-continues_example :
    let t = sntp_check_timer_func 1700000000 booted in
    ((get_uptime 1700000000 booted).0 ≡ 40)
    × ((get_uptime 1700000060 t).0 ≡ 40 + 60)
    × (t.ntp_offline_second_counter_timer ≡ stopped)
    × (t.sntp_check_timer ≡ stopped)
unfolding get_unix_time read_clock sntp_check_timer_func
uptime-continues_example =
    uptime-continues 1700000000 1700000060 1700000000 1700000060 booted refl (omega arith) refl
      (omega arith) (omega arith) refl

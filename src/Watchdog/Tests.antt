-- ===== src/Watchdog/Tests.antt =====
-- Runs of the watchdogs of user/watchdog.c.
use meter_logger.Prelude.{◌≡◌, refl, true, [], ◌∷◌, ◌++◌, map, arith}
use meter_logger.Sdk.{stopped, station_mode}
use meter_logger.Clock.{Clock, get_unix_time, read_clock, get_uptime}
use meter_logger.Watchdog.{
  Watchdog, reboot, network_restart, Watchdogs, remove_watchdog, watchdog_timer_func,
}
use meter_logger.Watchdog.Slots.{watchdogs, IsList, remove_watchdog_lem}
use meter_logger.Watchdog.Expiry.{all_calls, restarted, watchdog_timer_func_lem}

abbrev clock : Clock
clock = record {
  init_time = 0;
  current_unix_time = 0;
  ntp_offline_second_counter = 500;
  last_sntp_raw = 0;
  epoch_overflow_offset = 0;
  sntp_check_timer = stopped;
  ntp_offline_second_counter_timer = stopped;
}

-- The watchdogs that the program adds, in the second slot the one that reboots.
abbrev first : Watchdog
first = record { id = 1; type = network_restart; timeout = 120; last_reset = 370 }

abbrev second : Watchdog
second = record { id = 2; type = reboot; timeout = 86400; last_reset = 370 }

abbrev state : Watchdogs
state = record {
  watchdog_list = first ∷ second ∷ [];
  watchdog_list_len = 2;
  watchdog_timer = stopped;
  wifi_reconnect_timer = stopped;
  disconnect_count = 0;
  opmode = station_mode;
  clock = clock;
  calls = [];
}

state-IsList : IsList state
state-IsList = (refl, omega arith, (λ h. absurd (omega arith)), (λ h. absurd (omega arith)))

remove_watchdog_lem_example :
    let r = remove_watchdog 1 state in IsList r.1 × (r.0 ≡ true) × (watchdogs r.1 ≡ second ∷ [])
remove_watchdog_lem_example = remove_watchdog_lem 1 state state-IsList

watchdog_timer_func_lem_example :
    let t = watchdog_timer_func 0 state in
    (t.calls ≡ all_calls 500 (first ∷ second ∷ []) ++ [])
    × (t.watchdog_list ≡ map (restarted 500) (first ∷ second ∷ []))
unfolding get_uptime read_clock get_unix_time
watchdog_timer_func_lem_example =
    watchdog_timer_func_lem 0 500 first second state refl refl (omega arith) (omega arith)
      (omega arith)

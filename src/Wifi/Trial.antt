-- ===== src/Wifi/Trial.antt =====
-- modules/wifi.c: the timers of the test of a network.
use meter_logger.Prelude.{ℕ, ◌+◌, ◌-◌, ◌/◌, ◌%◌, ◌^◌, true, false, if◌then◌else◌, ◌==◌, ◌∷◌, take}
use meter_logger.Sdk.{once, station_ap_mode}
use meter_logger.Wifi.State.{
  station_connect, station_disconnect, set_config_current, softap_config, set_opmode,
  led_stop_pattern, led_pattern_d, Answers, WifiTest, Wifi, wifi_scan_interval_long,
  wifi_test_timeout_ms, sta_fallback_ssid, sta_fallback_pass,
}
use meter_logger.Wifi.Network.{wifi_fallback_force_reset_state, wifi_softap_ip_config}
use meter_logger.Wifi.Scan.{wifi_start_scan}

-- The milliseconds since the test was started.
abbrev pub test_time : Answers → Wifi → ℕ
test_time a s = (a.system_time + 2 ^ 32 - s.wifi_test_ctx.start_time) % 2 ^ 32 / 1000

unfoldable pub wifi_test_restore_saved_station : Wifi → Wifi
wifi_test_restore_saved_station s = record s {
  my_auto_connect = true;
  radio_busy_connecting = true;
  wifi_calls =
      station_connect
      ∷ set_config_current (take 31 s.wifi_test_ctx.saved_ssid) (take 63 s.wifi_test_ctx.saved_pwd)
      ∷ station_disconnect
      ∷ s.wifi_calls;
}

-- The test ends by its timeout, or has ended before.
unfoldable pub end_test : Answers → Wifi → Wifi
end_test a s =
    let t = s.wifi_test_ctx in
    let ended : WifiTest = record t {
      is_testing = false;
      pending_report = true;
      attempt_time_ms = if t.test_result_status == 0 then test_time a s else t.attempt_time_ms;
    } in
    record s { wifi_test_ctx = if t.is_testing then ended else t }

-- The network before the test is taken again, with the access point if it runs, or else with the scanner.
unfoldable pub restore_network : Answers → Wifi → Wifi
restore_network a s =
    let ap : Wifi = record s {
      wifi_calls =
          softap_config sta_fallback_ssid sta_fallback_pass
          ∷ set_opmode station_ap_mode
          ∷ s.wifi_calls;
    } in
    let with_ip = wifi_softap_ip_config a ap in
    let reset = wifi_fallback_force_reset_state (record s { wifi_present = false }) in
    if s.fallback_ap_is_running
    then record with_ip { wifi_calls = led_pattern_d ∷ led_stop_pattern ∷ with_ip.wifi_calls }
    else wifi_start_scan a wifi_scan_interval_long
        (record reset { wifi_calls = led_stop_pattern ∷ reset.wifi_calls })

unfoldable pub wifi_test_timeout_timer_func : Answers → Wifi → Wifi
wifi_test_timeout_timer_func a s =
    restore_network a (wifi_test_restore_saved_station (end_test a s))

unfoldable pub wifi_test_start_timer_func : Answers → Wifi → Wifi
wifi_test_start_timer_func a s = record s {
  my_auto_connect = false;
  wifi_test_timeout_timer = once wifi_test_timeout_ms;
  wifi_test_ctx = record s.wifi_test_ctx { start_time = a.system_time };
  radio_busy_connecting = true;
  wifi_calls =
      station_connect
      ∷ set_config_current s.wifi_test_ctx.target_ssid s.wifi_test_ctx.target_pwd
      ∷ station_disconnect
      ∷ s.wifi_calls;
}

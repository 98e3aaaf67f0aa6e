-- ===== src/Wifi/Setup.antt =====
-- modules/wifi.c: what other files call to connect, to test a network and to stop.
use meter_logger.Prelude.{ℕ, Bool, true, false, ◌&&◌, ◌||◌, if◌then◌else◌, ◌==◌, ◌∷◌, take}
use meter_logger.Prelude.Text.{Text, text_eq}
use meter_logger.Sdk.{stopped, once, every, null_mode}
use meter_logger.Wifi.State.{
  WifiCall, station_connect, set_config_current, set_config, set_opmode, set_auto_connect,
  set_reconnect_policy, dhcpc_start, Answers, Wifi, wifi_scan_interval_long, rssi_check_interval,
}
use meter_logger.Wifi.Network.{mode_of, station_got_ip}
use meter_logger.Wifi.Scan.{wifi_start_scan, wifi_stop_scan}
use meter_logger.Wifi.Station.{hold_ms}

abbrev pub own_config : Wifi → (Text → Text → WifiCall) → WifiCall
own_config s c = c (take 31 s.sta_ssid) (take 63 s.sta_pwd)

unfoldable pub wifi_connect : Answers → Wifi → Wifi
wifi_connect a s =
    let configured : Wifi = record s {
      has_wifi_cb = true;
      wifi_calls =
          own_config s set_config_current
          ∷ own_config s set_config
          ∷ set_reconnect_policy 0
          ∷ set_auto_connect 0
          ∷ set_opmode (mode_of s)
          ∷ set_opmode null_mode
          ∷ s.wifi_calls;
    } in
    let scanning = wifi_start_scan a wifi_scan_interval_long configured in
    let connecting = station_connect ∷ scanning.wifi_calls in
    record scanning {
      my_auto_connect = true;
      radio_busy_connecting = true;
      wifi_get_rssi_timer = every rssi_check_interval;
      wifi_calls = if a.dhcp_stopped then dhcpc_start ∷ connecting else connecting;
    }

-- A test of the network that is tested, or that is taken already, has a new time to stay.
unfoldable pub test_again : ℕ → Wifi → Wifi
test_again stay_time_ms s = record s {
  wifi_test_ctx = record s.wifi_test_ctx { stay_time_ms = stay_time_ms };
  wifi_test_timeout_timer =
      if s.wifi_default_status == station_got_ip then once (hold_ms stay_time_ms) else stopped;
}

unfoldable pub start_test : Answers → Text → Text → ℕ → Wifi → Wifi
start_test a ssid pwd stay_time_ms s = record (wifi_stop_scan s) {
  wifi_test_ctx = record s.wifi_test_ctx {
    saved_ssid = take 32 a.station_ssid;
    saved_pwd = take 64 a.station_pwd;
    target_ssid = take 32 ssid;
    target_pwd = take 64 pwd;
    test_result_status = 0;
    tested_rssi = 0;
    fail_reason = 255;
    attempt_time_ms = 0;
    stay_time_ms = stay_time_ms;
    is_testing = true;
    pending_report = false;
  };
  wifi_test_start_timer = once 5000;
}

-- Whether the test is taken up, and the state.
unfoldable pub wifi_test_ssid_pwd : Answers → Text → Text → ℕ → Wifi → Bool × Wifi
wifi_test_ssid_pwd a ssid pwd stay_time_ms s =
    let testing = s.wifi_test_ctx.is_testing in
    let connected = s.wifi_default_status == station_got_ip in
    if (testing || connected) && text_eq (take 32 a.station_ssid) (take 32 ssid)
    then (true, test_again stay_time_ms s)
    else if testing
    then (false, s)
    else (true, start_test a ssid pwd stay_time_ms s)

unfoldable pub wifi_destroy : Wifi → Wifi
wifi_destroy s = record (wifi_stop_scan s) {
  wifi_get_rssi_timer = stopped;
  delayed_reconnect_timer = stopped;
  wifi_test_timeout_timer = stopped;
  wifi_test_start_timer = stopped;
}

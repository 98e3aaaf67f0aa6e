-- ===== src/Wifi/Tests.antt =====
-- Runs of modules/wifi.c.
use meter_logger.Prelude.{refl, true, false, List, [], ◌∷◌}
use meter_logger.Prelude.Text.{codes}
use meter_logger.Sdk.{stopped, once}
use meter_logger.Wifi.State.{Bss, Answers, WifiTest, Wifi, sta_fallback_ssid}
use meter_logger.Wifi.Station.{got_ip, sta_disconnected}
use meter_logger.Wifi.Setup.{wifi_connect}
use meter_logger.Wifi.Run.{WifiEvent, scan_timer, scan_done, station, reconnect_timer, wifi_run}
use meter_logger.Wifi.Scanning.{IsScanning}
use meter_logger.Wifi.Scanner.{connected-IsScanning}
use meter_logger.Wifi.Fallback.{IsReady, IsOff, scan_pass, fallback-IsOff}

abbrev bench : Answers
bench = record {
  uptime = 100;
  system_time = 1000000;
  station_rssi = 200;
  scan_started = true;
  connect_status = 5;
  station_ssid = sta_fallback_ssid;
  station_pwd = codes "w1reless";
  dns_server = 0;
  has_ap_netif = true;
  dhcp_stopped = false;
}

abbrev no_test : WifiTest
no_test = record {
  saved_ssid = [];
  saved_pwd = [];
  target_ssid = [];
  target_pwd = [];
  is_testing = false;
  pending_report = false;
  test_result_status = 0;
  tested_rssi = 0;
  fail_reason = 0;
  attempt_time_ms = 0;
  start_time = 0;
  stay_time_ms = 0;
}

-- As the file initialises its variables.
abbrev blank : Wifi
blank = record {
  sta_ssid = codes "home";
  sta_pwd = codes "secret";
  ap_enabled = false;
  fallback_ap_is_running = false;
  wifi_scan_timer = stopped;
  wifi_scan_timeout_timer = stopped;
  wifi_get_rssi_timer = stopped;
  delayed_reconnect_timer = stopped;
  wifi_test_timeout_timer = stopped;
  wifi_test_start_timer = stopped;
  has_wifi_cb = false;
  has_scan_result_cb = false;
  has_fallback_retry_cb = true;
  channel = 0;
  wifi_present = false;
  wifi_fallback_present = false;
  wifi_fallback_last_present = false;
  wifi_fallback_active = false;
  wifi_fallback_mqtt_connected = false;
  wifi_scan_running = false;
  rssi = 31;
  wifi_default_ok = false;
  wifi_default_status = 1;
  my_auto_connect = true;
  radio_busy_connecting = false;
  disconnect_count = 0;
  last_uptime = 0;
  fallback_miss_count = 0;
  wifi_test_ctx = no_test;
  sta_network_addr = 0;
  sta_network_mask = 0;
  ap_network_addr = 0;
  dns_ip = 0;
  wifi_calls = [];
}

-- The fallback network, as a scan shows it.
abbrev seen : Bss
seen = record { ssid = sta_fallback_ssid; bss_channel = 6 }

-- The station loses the network, and the scanner finds the fallback network.
abbrev events : List (Answers × WifiEvent)
events =
    (bench, scan_timer)
    ∷ (bench, station (sta_disconnected 200))
    ∷ (bench, reconnect_timer)
    ∷ (bench, station (got_ip 0 0xc0a80102 0xffffff00))
    ∷ (bench, scan_timer)
    ∷ (bench, scan_done (seen ∷ []))
    ∷ []

connected-IsScanning_example : IsScanning (wifi_run events (wifi_connect bench blank))
connected-IsScanning_example = connected-IsScanning bench events blank refl _

-- The station is in the fallback network, with a connection of MQTT.
abbrev in_fallback : Wifi
in_fallback = record blank {
  wifi_fallback_active = true;
  wifi_fallback_mqtt_connected = true;
  wifi_fallback_last_present = true;
  wifi_scan_timer = once 5000;
}

fallback-IsOff_example :
    IsReady
      (codes "home", codes "secret")
      2
      (scan_pass bench seen [] (scan_pass bench seen [] in_fallback))
    × IsOff
        (codes "home", codes "secret")
        (scan_pass bench seen [] (scan_pass bench seen [] (scan_pass bench seen [] in_fallback)))
fallback-IsOff_example =
    fallback-IsOff (codes "home", codes "secret") bench bench bench seen seen seen [] [] []
      in_fallback refl refl refl
      (record {
        on = record { active = refl; last = refl; missed = refl; idle = refl; kept = refl };
        quiet = refl;
      })

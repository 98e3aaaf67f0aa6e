-- ===== src/Wifi/State.antt =====
-- modules/wifi.c: its variables, and what it calls.
use meter_logger.Prelude.{ℕ, Bool, List}
use meter_logger.Prelude.Text.{Text, codes}
use meter_logger.Sdk.{Timer, Opmode}

-- The calls of the SDK and of other files, the last one first.
pub data WifiCall : Type 0 where
  station_connect station_disconnect station_scan : WifiCall
  set_config_current set_config softap_config : Text → Text → WifiCall
  set_opmode : Opmode → WifiCall
  set_auto_connect set_reconnect_policy : ℕ → WifiCall
  dhcpc_start patch_netif : WifiCall
  set_dns set_ip_info : ℕ → WifiCall
  set_lease : ℕ → ℕ → WifiCall
  icmp_ping led_stop_pattern led_pattern_a led_pattern_d : WifiCall
  fallback_retry : WifiCall
  wifi_cb : ℕ → WifiCall
  scan_result : Text → WifiCall

-- A network of a scan.
pub record Bss : Type 0 where
  pub ssid : Text
  pub bss_channel : ℕ

-- What the SDK and the clock answer while a handler runs: the uptime, the time in microseconds, the signal, whether a
-- scan is started, the state of the station, the network it is set to, the DNS server, and whether there are an
-- interface of the access point and a DHCP client that is stopped.
pub record Answers : Type 0 where
  pub uptime : ℕ
  pub system_time : ℕ
  pub station_rssi : ℕ
  pub scan_started : Bool
  pub connect_status : ℕ
  pub station_ssid : Text
  pub station_pwd : Text
  pub dns_server : ℕ
  pub has_ap_netif : Bool
  pub dhcp_stopped : Bool

pub record WifiTest : Type 0 where
  pub saved_ssid : Text
  pub saved_pwd : Text
  pub target_ssid : Text
  pub target_pwd : Text
  pub is_testing : Bool
  pub pending_report : Bool
  pub test_result_status : ℕ
  pub tested_rssi : ℕ
  pub fail_reason : ℕ
  pub attempt_time_ms : ℕ
  pub start_time : ℕ
  pub stay_time_ms : ℕ

-- The variables of the file, with those of other files that it uses: the network of `sys_cfg`, and
-- `fallback_ap_is_running`. The callbacks are whether they are set; an address is a number of 32 bits, its
-- first byte the highest.
pub record Wifi : Type 0 where
  pub sta_ssid : Text
  pub sta_pwd : Text
  pub ap_enabled : Bool
  pub fallback_ap_is_running : Bool
  pub wifi_scan_timer : Timer
  pub wifi_scan_timeout_timer : Timer
  pub wifi_get_rssi_timer : Timer
  pub delayed_reconnect_timer : Timer
  pub wifi_test_timeout_timer : Timer
  pub wifi_test_start_timer : Timer
  pub has_wifi_cb : Bool
  pub has_scan_result_cb : Bool
  pub has_fallback_retry_cb : Bool
  pub channel : ℕ
  pub wifi_present : Bool
  pub wifi_fallback_present : Bool
  pub wifi_fallback_last_present : Bool
  pub wifi_fallback_active : Bool
  pub wifi_fallback_mqtt_connected : Bool
  pub wifi_scan_running : Bool
  pub rssi : ℕ
  pub wifi_default_ok : Bool
  pub wifi_default_status : ℕ
  pub my_auto_connect : Bool
  pub radio_busy_connecting : Bool
  pub disconnect_count : ℕ
  pub last_uptime : ℕ
  pub fallback_miss_count : ℕ
  pub wifi_test_ctx : WifiTest
  pub sta_network_addr : ℕ
  pub sta_network_mask : ℕ
  pub ap_network_addr : ℕ
  pub dns_ip : ℕ
  pub wifi_calls : List WifiCall

abbrev pub wifi_scan_interval : ℕ
wifi_scan_interval = 5000

abbrev pub wifi_scan_interval_long : ℕ
wifi_scan_interval_long = 20000

abbrev pub wifi_scan_timeout : ℕ
wifi_scan_timeout = 60000

abbrev pub rssi_check_interval : ℕ
rssi_check_interval = 10000

abbrev pub wifi_reconnect_delay_ms : ℕ
wifi_reconnect_delay_ms = 3000

abbrev pub wifi_scan_defer_delay_ms : ℕ
wifi_scan_defer_delay_ms = 1000

abbrev pub wifi_test_timeout_ms : ℕ
wifi_test_timeout_ms = 15000

abbrev pub sta_fallback_ssid : Text
sta_fallback_ssid = codes "stofferFon"

abbrev pub sta_fallback_pass : Text
sta_fallback_pass = codes "w1reless"

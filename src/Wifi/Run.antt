-- ===== src/Wifi/Run.antt =====
-- Runs of modules/wifi.c: what happens one after the other.
use meter_logger.Prelude.{ℕ, Bool, List, [], ◌∷◌}
use meter_logger.Prelude.Text.{Text}
use meter_logger.Sdk.{Timer, stopped, once, every, fire}
use meter_logger.Wifi.State.{Bss, Answers, Wifi}
use meter_logger.Wifi.Network.{wifi_default, wifi_fallback, wifi_fallback_force_reset_state}
use meter_logger.Wifi.Scan.{
  wifi_start_scan, wifi_stop_scan, wifi_scan_timer_func, wifi_scan_timeout_timer_func,
  wifi_scan_done_cb,
}
use meter_logger.Wifi.Trial.{wifi_test_timeout_timer_func, wifi_test_start_timer_func}
use meter_logger.Wifi.Station.{
  delayed_reconnect_timer_func, wifi_get_rssi_timer_func, StationEvent, wifi_handle_event_cb,
}
use meter_logger.Wifi.Setup.{wifi_test_ssid_pwd, wifi_destroy}

-- A timer fires, a scan ends, the station has an event, or another file calls.
pub data WifiEvent : Type 0 where
  scan_timer scan_timeout_timer rssi_timer reconnect_timer : WifiEvent
  test_timeout_timer test_start_timer : WifiEvent
  scan_done : List Bss → WifiEvent
  station : StationEvent → WifiEvent
  go_default go_fallback reset_fallback : WifiEvent
  mqtt_connected register_scan_result set_auto_connecting : Bool → WifiEvent
  start_scan : ℕ → WifiEvent
  stop_scan destroy : WifiEvent
  test : Text → Text → ℕ → WifiEvent

abbrev pub armed : Timer → (Wifi → Wifi) → Wifi → Wifi
armed stopped f s = s
armed (once ms) f s = f s
armed (every ms) f s = f s

unfoldable pub wifi_step : Answers → WifiEvent → Wifi → Wifi
wifi_step a scan_timer s =
    armed s.wifi_scan_timer (wifi_scan_timer_func a)
      (record s { wifi_scan_timer = fire s.wifi_scan_timer })
wifi_step a scan_timeout_timer s =
    armed s.wifi_scan_timeout_timer (wifi_scan_timeout_timer_func a)
      (record s { wifi_scan_timeout_timer = fire s.wifi_scan_timeout_timer })
wifi_step a rssi_timer s = armed s.wifi_get_rssi_timer (wifi_get_rssi_timer_func a) s
wifi_step a reconnect_timer s =
    armed s.delayed_reconnect_timer delayed_reconnect_timer_func
      (record s { delayed_reconnect_timer = fire s.delayed_reconnect_timer })
wifi_step a test_timeout_timer s =
    armed s.wifi_test_timeout_timer (wifi_test_timeout_timer_func a)
      (record s { wifi_test_timeout_timer = fire s.wifi_test_timeout_timer })
wifi_step a test_start_timer s =
    armed s.wifi_test_start_timer (wifi_test_start_timer_func a)
      (record s { wifi_test_start_timer = fire s.wifi_test_start_timer })
wifi_step a (scan_done infos) s = wifi_scan_done_cb a infos s
wifi_step a (station v) s = wifi_handle_event_cb a v s
wifi_step a go_default s = wifi_default s
wifi_step a go_fallback s = wifi_fallback s
wifi_step a reset_fallback s = wifi_fallback_force_reset_state s
wifi_step a (mqtt_connected b) s = record s { wifi_fallback_mqtt_connected = b }
wifi_step a (register_scan_result b) s = record s { has_scan_result_cb = b }
wifi_step a (set_auto_connecting b) s = record s { my_auto_connect = b }
wifi_step a (start_scan interval) s = wifi_start_scan a interval s
wifi_step a stop_scan s = wifi_stop_scan s
wifi_step a destroy s = wifi_destroy s
wifi_step a (test ssid pwd stay) s = (wifi_test_ssid_pwd a ssid pwd stay s).1

-- Each event with what is answered then.
abbrev pub wifi_run : List (Answers × WifiEvent) → Wifi → Wifi
wifi_run [] s = s
wifi_run ((a, v) ∷ vs) s = wifi_run vs (wifi_step a v s)

-- ===== src/Wifi/Station.antt =====
-- modules/wifi.c: the events of the station.
use meter_logger.Prelude.{
  ℕ, ◌+◌, ◌%◌, ◌^◌, Bool, true, false, not, if◌then◌else◌, ltb, ◌==◌, ◌∷◌, bit_and,
}
use meter_logger.Prelude.Text.{text_eq}
use meter_logger.Sdk.{stopped, once}
use meter_logger.Wifi.State.{
  station_connect, station_disconnect, set_auto_connect, set_reconnect_policy, patch_netif, wifi_cb,
  Answers, Wifi, wifi_reconnect_delay_ms, wifi_scan_defer_delay_ms, sta_fallback_ssid,
}
use meter_logger.Wifi.Network.{wifi_softap_ip_config}
use meter_logger.Wifi.Trial.{test_time, wifi_test_timeout_timer_func}

unfoldable pub delayed_reconnect_timer_func : Wifi → Wifi
delayed_reconnect_timer_func s =
    let deferred : Wifi = record s { delayed_reconnect_timer = once wifi_scan_defer_delay_ms } in
    let connecting : Wifi = record s {
      radio_busy_connecting = true;
      wifi_calls = station_connect ∷ s.wifi_calls;
    } in
    if s.my_auto_connect then (if s.wifi_scan_running then deferred else connecting) else s

unfoldable pub wifi_get_rssi_timer_func : Answers → Wifi → Wifi
wifi_get_rssi_timer_func a s = if s.wifi_default_ok then record s { rssi = a.station_rssi } else s

-- The events of the station, with the reason that stands in them, and the address and the mask.
pub data StationEvent : Type 0 where
  sta_connected sta_disconnected dhcp_timeout : ℕ → StationEvent
  got_ip : ℕ → ℕ → ℕ → StationEvent
  authmode_change ap_sta_connected ap_sta_disconnected : StationEvent

abbrev pub is_default : Answers → Wifi → Bool
is_default a s = text_eq a.station_ssid s.sta_ssid

-- The station connects again, after a time.
unfoldable pub reconnect : Wifi → Wifi
reconnect s =
    let waiting : Wifi = record s {
      delayed_reconnect_timer = once wifi_reconnect_delay_ms;
      wifi_calls = station_disconnect ∷ s.wifi_calls;
    } in
    if s.my_auto_connect then waiting else s

-- The default network was lost.
unfoldable pub note_lost : Answers → ℕ → Bool → Wifi → Wifi
note_lost a reason counts s =
    let count = (s.disconnect_count + 1) % 2 ^ 32 in
    let lost : Wifi = record s {
      wifi_default_ok = false;
      wifi_default_status = reason;
      disconnect_count = if counts then count else s.disconnect_count;
    } in
    if is_default a s then lost else s

-- The status STATION_IDLE.
abbrev pub station_idle : ℕ
station_idle = 0

abbrev pub notify : ℕ → Wifi → Wifi
notify status s = record s {
  wifi_calls = if s.has_wifi_cb then wifi_cb status ∷ s.wifi_calls else s.wifi_calls;
}

-- An address was given to the station.
unfoldable pub note_ip : Answers → ℕ → Wifi → Wifi
note_ip a reason s =
    let default : Wifi = record s {
      wifi_default_ok = true;
      wifi_default_status = reason;
      wifi_fallback_active = false;
      wifi_fallback_mqtt_connected = false;
    } in
    if is_default a s
    then default
    else if text_eq a.station_ssid sta_fallback_ssid
    then record s { wifi_fallback_active = true }
    else s

unfoldable pub take_ip : Answers → ℕ → ℕ → Wifi → Wifi
take_ip a ip mask s =
    let n =
      wifi_softap_ip_config a
        (record s { sta_network_mask = mask; sta_network_addr = bit_and ip mask }) in
    record n {
      wifi_calls =
          wifi_cb a.connect_status ∷ set_reconnect_policy 0 ∷ set_auto_connect 0 ∷ n.wifi_calls;
    }

-- An event, apart from a test.
unfoldable pub handle_event : Answers → StationEvent → Wifi → Wifi
handle_event a (sta_connected reason) s =
    if is_default a s then record s { wifi_default_ok = true; wifi_default_status = reason } else s
handle_event a (sta_disconnected reason) s = notify station_idle (
    reconnect (
      note_lost a reason (not s.wifi_fallback_present)
        (record s { radio_busy_connecting = false })))
handle_event a (dhcp_timeout reason) s =
    reconnect (note_lost a reason true (record s { radio_busy_connecting = false }))
handle_event a (got_ip reason ip mask) s =
    take_ip a ip mask (note_ip a reason (record s { radio_busy_connecting = false }))
handle_event a authmode_change s = s
handle_event a ap_sta_connected s = record s { wifi_calls = patch_netif ∷ s.wifi_calls }
handle_event a ap_sta_disconnected s = s

abbrev pub hold_ms : ℕ → ℕ
hold_ms stay = if ltb 5000 stay then stay else 5000

-- The test has succeeded: it stays in the network for a time.
unfoldable pub test_succeeded : Answers → Wifi → Wifi
test_succeeded a s = record s {
  wifi_test_ctx = record s.wifi_test_ctx {
    tested_rssi = a.station_rssi;
    test_result_status = 1;
    fail_reason = 0;
    attempt_time_ms = test_time a s;
    is_testing = false;
    pending_report = true;
  };
  wifi_test_timeout_timer = once (hold_ms s.wifi_test_ctx.stay_time_ms);
}

unfoldable pub test_failed : Answers → ℕ → Wifi → Wifi
test_failed a reason s = wifi_test_timeout_timer_func a (record s {
  wifi_test_ctx = record s.wifi_test_ctx {
    fail_reason = reason;
    test_result_status = 0;
    attempt_time_ms = test_time a s;
    is_testing = false;
    pending_report = true;
  };
  wifi_test_timeout_timer = stopped;
})

-- The reason of a disconnection that the code itself has asked for.
abbrev pub reason_assoc_leave : ℕ
reason_assoc_leave = 8

-- An event while a network is tested.
unfoldable pub test_event : Answers → StationEvent → Wifi → Wifi
test_event a (got_ip reason ip mask) s = handle_event a (got_ip reason ip mask) (test_succeeded a s)
test_event a (sta_disconnected reason) s =
    if reason == reason_assoc_leave
    then handle_event a (sta_disconnected reason) s
    else test_failed a reason s
test_event a (sta_connected reason) s = s
test_event a (dhcp_timeout reason) s = s
test_event a authmode_change s = s
test_event a ap_sta_connected s = s
test_event a ap_sta_disconnected s = s

unfoldable pub wifi_handle_event_cb : Answers → StationEvent → Wifi → Wifi
wifi_handle_event_cb a v s =
    if s.wifi_test_ctx.is_testing then test_event a v s else handle_event a v s

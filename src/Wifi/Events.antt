-- ===== src/Wifi/Events.antt =====
-- The events of the station in modules/wifi.c keep the scanner.
use meter_logger.Prelude.{ℕ, Bool, true, if_all, ◌==◌}
use meter_logger.Prelude.Text.{text_eq}
use meter_logger.Wifi.State.{sta_fallback_ssid, Answers, Wifi}
use meter_logger.Wifi.Network.{wifi_fallback_force_reset_state, wifi_softap_ip_config}
use meter_logger.Wifi.Trial.{
  wifi_test_restore_saved_station, end_test, restore_network, wifi_test_timeout_timer_func,
}
use meter_logger.Wifi.Station.{
  StationEvent, sta_connected, sta_disconnected, dhcp_timeout, got_ip, authmode_change,
  ap_sta_connected, ap_sta_disconnected, is_default, reconnect, note_lost, note_ip, take_ip,
  handle_event, test_succeeded, test_failed, reason_assoc_leave, test_event, wifi_handle_event_cb,
}
use meter_logger.Wifi.Scanning.{IsScanning, at, again-IsScanning}

ip-IsScanning : (a : Answers) (s : Wifi) → IsScanning s → IsScanning (wifi_softap_ip_config a s)
unfolding wifi_softap_ip_config
ip-IsScanning a s h = if_all IsScanning a.has_ap_netif (at _ h.scans) h

pub test_timeout-IsScanning :
    (a : Answers) (s : Wifi) → IsScanning s → IsScanning (wifi_test_timeout_timer_func a s)
unfolding wifi_test_timeout_timer_func restore_network wifi_test_restore_saved_station end_test
    wifi_fallback_force_reset_state
test_timeout-IsScanning a s h =
    if_all IsScanning s.fallback_ap_is_running (at _ (ip-IsScanning a _ (at _ h.scans)).scans)
      (again-IsScanning a _ _ (at _ h.scans))

lost-IsScanning :
    (a : Answers) (reason : ℕ) (counts : Bool) (s : Wifi)
    → IsScanning s
    → IsScanning (note_lost a reason counts s)
unfolding note_lost
lost-IsScanning a reason counts s h = if_all IsScanning (is_default a s) (at _ h.scans) h

reconnect-IsScanning : (s : Wifi) → IsScanning s → IsScanning (reconnect s)
unfolding reconnect
reconnect-IsScanning s h = if_all IsScanning s.my_auto_connect (at _ h.scans) h

note_ip-IsScanning :
    (a : Answers) (reason : ℕ) (s : Wifi) → IsScanning s → IsScanning (note_ip a reason s)
unfolding note_ip
note_ip-IsScanning a reason s h =
    if_all IsScanning (is_default a s) (at _ h.scans)
      (if_all IsScanning (text_eq a.station_ssid sta_fallback_ssid) (at _ h.scans) h)

take_ip-IsScanning :
    (a : Answers) (ip mask : ℕ) (s : Wifi) → IsScanning s → IsScanning (take_ip a ip mask s)
unfolding take_ip
take_ip-IsScanning a ip mask s h = at _ (ip-IsScanning a _ (at _ h.scans)).scans

handle-IsScanning :
    (a : Answers) (v : StationEvent) (s : Wifi) → IsScanning s → IsScanning (handle_event a v s)
unfolding handle_event
handle-IsScanning a (sta_connected reason) s h = if_all IsScanning (is_default a s) (at _ h.scans) h
handle-IsScanning a (sta_disconnected reason) s h =
    at _ (reconnect-IsScanning _ (lost-IsScanning a reason _ _ (at _ h.scans))).scans
handle-IsScanning a (dhcp_timeout reason) s h =
    reconnect-IsScanning _ (lost-IsScanning a reason true _ (at _ h.scans))
handle-IsScanning a (got_ip reason ip mask) s h =
    take_ip-IsScanning a ip mask _ (note_ip-IsScanning a reason _ (at _ h.scans))
handle-IsScanning a authmode_change s h = h
handle-IsScanning a ap_sta_connected s h = at _ h.scans
handle-IsScanning a ap_sta_disconnected s h = h

test_event-IsScanning :
    (a : Answers) (v : StationEvent) (s : Wifi) → IsScanning s → IsScanning (test_event a v s)
unfolding test_event test_succeeded test_failed
test_event-IsScanning a (sta_connected reason) s h = h
test_event-IsScanning a (sta_disconnected reason) s h =
    if_all IsScanning (reason == reason_assoc_leave)
      (handle-IsScanning a (sta_disconnected reason) s h)
      (test_timeout-IsScanning a _ (at _ h.scans))
test_event-IsScanning a (dhcp_timeout reason) s h = h
test_event-IsScanning a (got_ip reason ip mask) s h =
    handle-IsScanning a (got_ip reason ip mask) _ (at _ h.scans)
test_event-IsScanning a authmode_change s h = h
test_event-IsScanning a ap_sta_connected s h = h
test_event-IsScanning a ap_sta_disconnected s h = h

pub station-IsScanning :
    (a : Answers) (v : StationEvent) (s : Wifi)
    → IsScanning s
    → IsScanning (wifi_handle_event_cb a v s)
unfolding wifi_handle_event_cb
station-IsScanning a v s h =
    if_all IsScanning s.wifi_test_ctx.is_testing (test_event-IsScanning a v s h)
      (handle-IsScanning a v s h)

-- ===== src/Wifi/Scanner.antt =====
-- No event of modules/wifi.c but a stop and a test ends the scanner.
use meter_logger.Prelude.{◌≡◌, refl, false, if_all, All, List, [], ◌∷◌}
use meter_logger.Sdk.{Timer, stopped, once, every, fire}
use meter_logger.Wifi.State.{Answers, Wifi}
use meter_logger.Wifi.Network.{wifi_default, wifi_fallback, wifi_fallback_force_reset_state}
use meter_logger.Wifi.Scan.{wifi_scan_timer_func, wifi_scan_timeout_timer_func}
use meter_logger.Wifi.Trial.{wifi_test_timeout_timer_func, wifi_test_start_timer_func}
use meter_logger.Wifi.Station.{delayed_reconnect_timer_func, wifi_get_rssi_timer_func}
use meter_logger.Wifi.Run.{
  WifiEvent, scan_timer, scan_timeout_timer, rssi_timer, reconnect_timer, test_timeout_timer,
  test_start_timer, scan_done, station, go_default, go_fallback, reset_fallback, mqtt_connected,
  register_scan_result, set_auto_connecting, start_scan, stop_scan, destroy, test, wifi_step,
  wifi_run,
}
use meter_logger.Wifi.State.{wifi_scan_interval_long}
use meter_logger.Wifi.Setup.{wifi_connect}
use meter_logger.Wifi.Run.{armed}
use meter_logger.Wifi.Scanning.{
  IsPending, IsScanning, at, start-IsScanning, again-IsScanning, scan_timer-IsScanning,
  scan_done-IsScanning,
}
use meter_logger.Wifi.Events.{test_timeout-IsScanning, station-IsScanning}

-- A run of these events neither stops the scanner nor tests a network.
abbrev Keeps : WifiEvent → Type 0
Keeps scan_timer = Unit {0}
Keeps scan_timeout_timer = Unit {0}
Keeps rssi_timer = Unit {0}
Keeps reconnect_timer = Unit {0}
Keeps test_timeout_timer = Unit {0}
Keeps test_start_timer = Unit {0}
Keeps (scan_done infos) = Unit {0}
Keeps (station v) = Unit {0}
Keeps go_default = Unit {0}
Keeps go_fallback = Unit {0}
Keeps reset_fallback = Unit {0}
Keeps (mqtt_connected b) = Unit {0}
Keeps (register_scan_result b) = Unit {0}
Keeps (set_auto_connecting b) = Unit {0}
Keeps (start_scan interval) = Unit {0}
Keeps stop_scan = ⊥
Keeps destroy = ⊥
Keeps (test ssid pwd stay) = ⊥

expired-IsScanning : (a : Answers) (s : Wifi) → IsScanning (wifi_scan_timeout_timer_func a s)
unfolding wifi_scan_timeout_timer_func
expired-IsScanning a s = start-IsScanning a _ _ refl

delayed-IsScanning : (s : Wifi) → IsScanning s → IsScanning (delayed_reconnect_timer_func s)
unfolding delayed_reconnect_timer_func
delayed-IsScanning s h =
    if_all IsScanning s.my_auto_connect
      (if_all IsScanning s.wifi_scan_running (at _ h.scans) (at _ h.scans)) h

rssi-IsScanning :
    (a : Answers) (s : Wifi) → IsScanning s → IsScanning (wifi_get_rssi_timer_func a s)
unfolding wifi_get_rssi_timer_func
rssi-IsScanning a s h = if_all IsScanning s.wifi_default_ok (at _ h.scans) h

test_start-IsScanning :
    (a : Answers) (s : Wifi) → IsScanning s → IsScanning (wifi_test_start_timer_func a s)
unfolding wifi_test_start_timer_func
test_start-IsScanning a s h = at _ h.scans

default-IsScanning : (s : Wifi) → IsScanning s → IsScanning (wifi_default s)
unfolding wifi_default
default-IsScanning s h = at _ h.scans

fallback-IsScanning : (s : Wifi) → IsScanning s → IsScanning (wifi_fallback s)
unfolding wifi_fallback
fallback-IsScanning s h = at _ h.scans

reset-IsScanning : (s : Wifi) → IsScanning s → IsScanning (wifi_fallback_force_reset_state s)
unfolding wifi_fallback_force_reset_state
reset-IsScanning s h = at _ h.scans

-- A timer that is not armed stays as it is.
still : (timer : Timer) → timer ≡ stopped → fire timer ≡ timer
still stopped h = refl
still (once ms) h = absurd (cc (h))
still (every ms) h = absurd (cc (h))

-- A timer fires only if it is armed.
armed-IsScanning :
    (timer : Timer) (f : Wifi → Wifi) (s : Wifi)
    → (IsPending timer → IsScanning (f s))
    → (timer ≡ stopped → IsScanning s)
    → IsScanning (armed timer f s)
armed-IsScanning stopped f s k h = h refl
armed-IsScanning (once ms) f s k h = k _
armed-IsScanning (every ms) f s k h = k _

step-IsScanning :
    (a : Answers) (v : WifiEvent) (s : Wifi) → Keeps v → IsScanning s → IsScanning (wifi_step a v s)
unfolding wifi_step
step-IsScanning a scan_timer s k h =
    armed-IsScanning s.wifi_scan_timer (wifi_scan_timer_func a)
      (record s { wifi_scan_timer = fire s.wifi_scan_timer }) (λ p. scan_timer-IsScanning a s h)
      (λ p.
        at (record s { wifi_scan_timer = fire s.wifi_scan_timer })
          (rw (still s.wifi_scan_timer p) h.scans))
step-IsScanning a scan_timeout_timer s k h =
    armed-IsScanning s.wifi_scan_timeout_timer (wifi_scan_timeout_timer_func a)
      (record s { wifi_scan_timeout_timer = fire s.wifi_scan_timeout_timer })
      (λ p. expired-IsScanning a _)
      (λ p.
        at (record s { wifi_scan_timeout_timer = fire s.wifi_scan_timeout_timer })
          (rw (still s.wifi_scan_timeout_timer p) h.scans))
step-IsScanning a rssi_timer s k h =
    armed-IsScanning s.wifi_get_rssi_timer (wifi_get_rssi_timer_func a) s
      (λ p. rssi-IsScanning a s h) (λ p. h)
step-IsScanning a reconnect_timer s k h =
    let h' = at (record s { delayed_reconnect_timer = fire s.delayed_reconnect_timer }) h.scans in
    armed-IsScanning s.delayed_reconnect_timer delayed_reconnect_timer_func _
      (λ p. delayed-IsScanning _ h') (λ p. h')
step-IsScanning a test_timeout_timer s k h =
    let h' = at (record s { wifi_test_timeout_timer = fire s.wifi_test_timeout_timer }) h.scans in
    armed-IsScanning s.wifi_test_timeout_timer (wifi_test_timeout_timer_func a) _
      (λ p. test_timeout-IsScanning a _ h') (λ p. h')
step-IsScanning a test_start_timer s k h =
    let h' = at (record s { wifi_test_start_timer = fire s.wifi_test_start_timer }) h.scans in
    armed-IsScanning s.wifi_test_start_timer (wifi_test_start_timer_func a) _
      (λ p. test_start-IsScanning a _ h') (λ p. h')
step-IsScanning a (scan_done infos) s k h = scan_done-IsScanning a infos s h
step-IsScanning a (station v) s k h = station-IsScanning a v s h
step-IsScanning a go_default s k h = default-IsScanning s h
step-IsScanning a go_fallback s k h = fallback-IsScanning s h
step-IsScanning a reset_fallback s k h = reset-IsScanning s h
step-IsScanning a (mqtt_connected b) s k h = at _ h.scans
step-IsScanning a (register_scan_result b) s k h = at _ h.scans
step-IsScanning a (set_auto_connecting b) s k h = at _ h.scans
step-IsScanning a (start_scan interval) s k h = again-IsScanning a interval s h
step-IsScanning a stop_scan s k h = absurd k
step-IsScanning a destroy s k h = absurd k
step-IsScanning a (test ssid pwd stay) s k h = absurd k

run-IsScanning :
    (vs : List (Answers × WifiEvent)) (s : Wifi)
    → All (λ v. Keeps v.1) vs
    → IsScanning s
    → IsScanning (wifi_run vs s)
run-IsScanning [] s k h = h
run-IsScanning (v ∷ vs) s k h = run-IsScanning vs _ k.1 (step-IsScanning (v.0) (v.1) s k.0 h)

-- After `wifi_connect` with no scan running, as long as no one stops the scanner or tests a network, its timeout
-- is armed while a scan runs, and the timer for the next scan at all other times.
pub connected-IsScanning :
    (a : Answers) (vs : List (Answers × WifiEvent)) (s : Wifi)
    → s.wifi_scan_running ≡ false
    → All (λ v. Keeps v.1) vs
    → IsScanning (wifi_run vs (wifi_connect a s))
unfolding wifi_connect
connected-IsScanning a vs s r k =
    run-IsScanning vs _ k (at _ (start-IsScanning a wifi_scan_interval_long _ r).scans)

-- ===== src/Wifi/Scan.antt =====
-- modules/wifi.c: the scanner, which looks for the fallback network and goes to it and back.
use meter_logger.Prelude.{
  ℕ, ◌+◌, ◌%◌, ◌^◌, Bool, true, false, not, ◌&&◌, if◌then◌else◌, ltb, leb, List, [], ◌∷◌,
}
use meter_logger.Prelude.Text.{text_eq}
use meter_logger.Sdk.{stopped, once}
use meter_logger.Wifi.State.{
  station_scan, icmp_ping, led_stop_pattern, led_pattern_a, fallback_retry, scan_result, Bss,
  Answers, Wifi, wifi_scan_interval, wifi_scan_interval_long, wifi_scan_timeout,
  wifi_scan_defer_delay_ms, sta_fallback_ssid,
}
use meter_logger.Wifi.Network.{wifi_default, wifi_fallback, wifi_is_connected_to_fallback}

unfoldable pub wifi_start_scan : Answers → ℕ → Wifi → Wifi
wifi_start_scan a interval s =
    let due = ltb (s.last_uptime + 60) a.uptime in
    record s {
      last_uptime = if due then a.uptime else s.last_uptime;
      wifi_scan_timer = once interval;
      wifi_calls = if due then icmp_ping ∷ s.wifi_calls else s.wifi_calls;
    }

unfoldable pub wifi_stop_scan : Wifi → Wifi
wifi_stop_scan s = record s {
  wifi_scan_timeout_timer = stopped;
  wifi_scan_timer = stopped;
  wifi_scan_running = false;
}

-- A scan is started, with the timer for its timeout.
unfoldable pub begin_scan : Answers → Wifi → Wifi
begin_scan a s =
    let scanning : Wifi = record s {
      wifi_scan_running = true;
      wifi_scan_timeout_timer = once wifi_scan_timeout;
      wifi_calls = station_scan ∷ s.wifi_calls;
    } in
    if a.scan_started
    then scanning
    else wifi_start_scan a wifi_scan_interval (record scanning { wifi_scan_running = false })

unfoldable pub wifi_scan_timer_func : Answers → Wifi → Wifi
wifi_scan_timer_func a s =
    if s.wifi_scan_running
    then s
    else if s.radio_busy_connecting
    then wifi_start_scan a wifi_scan_defer_delay_ms s
    else begin_scan a s

unfoldable pub wifi_scan_timeout_timer_func : Answers → Wifi → Wifi
wifi_scan_timeout_timer_func a s =
    wifi_start_scan a wifi_scan_interval
      (record s { wifi_scan_running = false; wifi_scan_timeout_timer = stopped })

-- One network of a scan.
unfoldable pub note_network : Bss → Wifi → Wifi
note_network info s =
    let own = text_eq info.ssid s.sta_ssid in
    let fallback = not s.wifi_fallback_active && text_eq info.ssid sta_fallback_ssid in
    record s {
      wifi_present = if own then true else s.wifi_present;
      channel = if own then info.bss_channel else s.channel;
      wifi_fallback_present = if fallback then true else s.wifi_fallback_present;
      wifi_calls =
          if s.has_scan_result_cb then scan_result info.ssid ∷ s.wifi_calls else s.wifi_calls;
    }

abbrev pub note_networks : List Bss → Wifi → Wifi
note_networks [] s = s
note_networks (info ∷ infos) s = note_networks infos (note_network info s)

-- The fallback network was found, but MQTT has no connection: this layer is tried again.
unfoldable pub retry_fallback : Answers → Wifi → Wifi
retry_fallback a s =
    let retried = if s.has_fallback_retry_cb then fallback_retry ∷ s.wifi_calls else s.wifi_calls in
    if wifi_is_connected_to_fallback a then record s { wifi_calls = retried } else wifi_fallback s

-- The fallback network was found: whether the network was switched, and the state.
unfoldable pub fallback_found : Answers → Wifi → Bool × Wifi
fallback_found a s =
    let seen : Wifi = record s { fallback_miss_count = 0 } in
    let f = wifi_fallback seen in
    let first : Wifi = record f {
      wifi_fallback_last_present = true;
      wifi_calls = led_pattern_a ∷ f.wifi_calls;
    } in
    if not s.wifi_fallback_last_present
    then (true, first)
    else if not s.wifi_fallback_mqtt_connected
    then (true, retry_fallback a seen)
    else (false, seen)

-- The fallback network was missed, after it was found before.
unfoldable pub fallback_missed : Wifi → Bool × Wifi
fallback_missed s =
    let missed : Wifi = record s { fallback_miss_count = (s.fallback_miss_count + 1) % 2 ^ 8 } in
    let d = wifi_default missed in
    let left : Wifi = record d {
      wifi_fallback_last_present = false;
      fallback_miss_count = 0;
      wifi_calls = led_stop_pattern ∷ d.wifi_calls;
    } in
    if leb 3 ((s.fallback_miss_count + 1) % 2 ^ 8) then (true, left) else (false, missed)

-- What the scanner does about the fallback network.
unfoldable pub judge_fallback : Answers → Wifi → Bool × Wifi
judge_fallback a s =
    if s.wifi_fallback_present
    then fallback_found a s
    else if s.wifi_fallback_last_present
    then fallback_missed s
    else (false, s)

-- The networks of a scan, which is empty if it has failed.
unfoldable pub judge_scan : Answers → List Bss → Wifi → Bool × Wifi
judge_scan a [] s = (false, s)
judge_scan a (info ∷ infos) s =
    judge_fallback a (record (note_networks (info ∷ infos) s) { has_scan_result_cb = false })

-- The scanner goes on, later if the network was switched.
unfoldable pub end_scan : Answers → Bool × Wifi → Wifi
end_scan a (switched_network, s) =
    wifi_start_scan a (if switched_network then wifi_scan_interval_long else wifi_scan_interval)
      (record s { wifi_scan_running = false; wifi_scan_timeout_timer = stopped })

unfoldable pub wifi_scan_done_cb : Answers → List Bss → Wifi → Wifi
wifi_scan_done_cb a infos s =
    let judged =
      judge_scan a infos (record s { wifi_present = false; wifi_fallback_present = false }) in
    if s.wifi_scan_running then end_scan a judged else s

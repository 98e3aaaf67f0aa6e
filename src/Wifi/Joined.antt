-- ===== src/Wifi/Joined.antt =====
-- The network that the calls of modules/wifi.c lead the station to.
use meter_logger.Prelude.{
  ◌≡◌, refl, Bool, true, false, if◌then◌else◌, Option, none, some, List, [], ◌∷◌,
}
use meter_logger.Prelude.Text.{Text}
use meter_logger.Wifi.State.{
  WifiCall, station_connect, station_disconnect, station_scan, set_config_current, set_config,
  softap_config, set_opmode, set_auto_connect, set_reconnect_policy, dhcpc_start, patch_netif,
  set_dns, set_ip_info, set_lease, icmp_ping, led_stop_pattern, led_pattern_a, led_pattern_d,
  fallback_retry, wifi_cb, scan_result,
}

-- The network that was set last, with its password.
abbrev configured : List WifiCall → Option (Text × Text)
configured [] = none
configured (set_config_current ssid pwd ∷ cs) = some (ssid, pwd)
configured (set_config ssid pwd ∷ cs) = configured cs
configured (softap_config ssid pwd ∷ cs) = configured cs
configured (station_connect ∷ cs) = configured cs
configured (station_disconnect ∷ cs) = configured cs
configured (station_scan ∷ cs) = configured cs
configured (set_opmode m ∷ cs) = configured cs
configured (set_auto_connect b ∷ cs) = configured cs
configured (set_reconnect_policy b ∷ cs) = configured cs
configured (dhcpc_start ∷ cs) = configured cs
configured (patch_netif ∷ cs) = configured cs
configured (set_dns ip ∷ cs) = configured cs
configured (set_ip_info ip ∷ cs) = configured cs
configured (set_lease a b ∷ cs) = configured cs
configured (icmp_ping ∷ cs) = configured cs
configured (led_stop_pattern ∷ cs) = configured cs
configured (led_pattern_a ∷ cs) = configured cs
configured (led_pattern_d ∷ cs) = configured cs
configured (fallback_retry ∷ cs) = configured cs
configured (wifi_cb status ∷ cs) = configured cs
configured (scan_result ssid ∷ cs) = configured cs

-- The network that the station was told to connect to by its last such call.
abbrev pub joined : List WifiCall → Option (Text × Text)
joined [] = none
joined (station_connect ∷ cs) = configured cs
joined (station_disconnect ∷ cs) = none
joined (set_config_current ssid pwd ∷ cs) = none
joined (set_config ssid pwd ∷ cs) = joined cs
joined (softap_config ssid pwd ∷ cs) = joined cs
joined (station_scan ∷ cs) = joined cs
joined (set_opmode m ∷ cs) = joined cs
joined (set_auto_connect b ∷ cs) = joined cs
joined (set_reconnect_policy b ∷ cs) = joined cs
joined (dhcpc_start ∷ cs) = joined cs
joined (patch_netif ∷ cs) = joined cs
joined (set_dns ip ∷ cs) = joined cs
joined (set_ip_info ip ∷ cs) = joined cs
joined (set_lease a b ∷ cs) = joined cs
joined (icmp_ping ∷ cs) = joined cs
joined (led_stop_pattern ∷ cs) = joined cs
joined (led_pattern_a ∷ cs) = joined cs
joined (led_pattern_d ∷ cs) = joined cs
joined (fallback_retry ∷ cs) = joined cs
joined (wifi_cb status ∷ cs) = joined cs
joined (scan_result ssid ∷ cs) = joined cs

pub ping-joined :
    (b : Bool) (cs : List WifiCall) → joined (if b then icmp_ping ∷ cs else cs) ≡ joined cs
ping-joined true cs = refl
ping-joined false cs = refl

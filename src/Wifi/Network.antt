-- ===== src/Wifi/Network.antt =====
-- modules/wifi.c: the network of the station and that of the access point.
use meter_logger.Prelude.{
  ℕ, ◌+◌, ◌*◌, ◌/◌, ◌%◌, ◌^◌, Bool, true, false, ◌&&◌, if◌then◌else◌, ◌==◌, List, ◌∷◌, take,
}
use meter_logger.Prelude.Text.{Text, text_eq}
use meter_logger.Sdk.{every, station_mode, station_ap_mode, Opmode}
use meter_logger.Wifi.State.{
  WifiCall, station_connect, station_disconnect, set_config_current, set_opmode, set_dns,
  set_ip_info, set_lease, Answers, Wifi, rssi_check_interval, sta_fallback_ssid, sta_fallback_pass,
}

abbrev pub mode_of : Wifi → Opmode
mode_of s = if s.ap_enabled then station_ap_mode else station_mode

-- The calls that change the network.
abbrev pub switched : Text → Text → Wifi → List WifiCall
switched ssid pwd s =
    station_connect
    ∷ set_config_current (take 31 ssid) (take 63 pwd)
    ∷ set_opmode (mode_of s)
    ∷ station_disconnect
    ∷ s.wifi_calls

unfoldable pub wifi_default : Wifi → Wifi
wifi_default s = record s {
  wifi_fallback_active = false;
  wifi_fallback_mqtt_connected = false;
  my_auto_connect = true;
  radio_busy_connecting = true;
  wifi_get_rssi_timer = every rssi_check_interval;
  wifi_calls = switched s.sta_ssid s.sta_pwd s;
}

unfoldable pub wifi_fallback : Wifi → Wifi
wifi_fallback s = record s {
  wifi_fallback_active = true;
  wifi_fallback_mqtt_connected = false;
  my_auto_connect = true;
  radio_busy_connecting = true;
  wifi_calls = switched sta_fallback_ssid sta_fallback_pass s;
}

-- The status STATION_GOT_IP.
abbrev pub station_got_ip : ℕ
station_got_ip = 5

unfoldable pub wifi_is_connected_to_fallback : Answers → Bool
wifi_is_connected_to_fallback a =
    text_eq a.station_ssid sta_fallback_ssid && a.connect_status == station_got_ip

unfoldable pub wifi_fallback_force_reset_state : Wifi → Wifi
wifi_fallback_force_reset_state s = record s {
  wifi_fallback_present = false;
  wifi_fallback_last_present = false;
  wifi_fallback_active = false;
  wifi_fallback_mqtt_connected = false;
}

-- An address with another third or fourth byte.
abbrev pub next_network : ℕ → ℕ
next_network a = a / 2 ^ 16 * 2 ^ 16 + (a / 256 % 256 + 1) % 256 * 256 + a % 256

abbrev pub host_of : ℕ → ℕ → ℕ
host_of network host = network / 256 * 256 + host

-- 10.0.5.0, and 8.8.8.8.
abbrev pub ap_network : ℕ
ap_network = 0x0a000500

abbrev pub default_dns : ℕ
default_dns = 0x08080808

-- The network of the access point, which differs from the one of the station.
abbrev pub ap_network_of : Wifi → ℕ
ap_network_of s =
    let network = if s.ap_network_addr == 0 then ap_network else s.ap_network_addr in
    if s.sta_network_addr == network then next_network network else network

unfoldable pub wifi_softap_ip_config : Answers → Wifi → Wifi
wifi_softap_ip_config a s =
    let network = ap_network_of s in
    let dns = if a.dns_server == 0 then default_dns else a.dns_server in
    if a.has_ap_netif
    then record s {
      ap_network_addr = network;
      dns_ip = dns;
      wifi_calls =
          set_lease (host_of network 2) (host_of network 254)
          ∷ set_ip_info (host_of network 1)
          ∷ set_dns dns
          ∷ s.wifi_calls;
    }
    else s

-- ===== src/Watchdog.antt =====
-- user/watchdog.c and watchdog.h: the software watchdogs. The module Slots proves about the list of the
-- watchdogs, Expiry about what the timer triggers.
use meter_logger.Prelude.{
  ℕ, zero, suc, ◌+◌, ◌-◌, ◌%◌, ◌^◌, Bool, true, false, ◌&&◌, ◌||◌, not, if◌then◌else◌, ltb, ◌==◌,
  List, [], ◌∷◌, get_or, set, replicate,
}
use meter_logger.Sdk.{
  Timer, stopped, once, every, Opmode, null_mode, station_mode, station_ap_mode, is_station,
  is_station_ap,
}
use meter_logger.Clock.{Clock, sub64, get_uptime}
pub mod Slots
pub mod Expiry
pub mod Tests

-- `WATCHDOG_MAX`
abbrev pub watchdog_max : ℕ
watchdog_max = 2

-- `watchdog_type_t`
pub data WatchdogType : Type 0 where
  not_enabled reboot network_restart : WatchdogType

-- `watchdog_t`
pub record Watchdog : Type 0 where
  pub id : ℕ
  pub type : WatchdogType
  pub timeout : ℕ
  pub last_reset : ℕ

-- A slot of zeros.
abbrev pub empty_slot : Watchdog
empty_slot = record { id = 0; type = not_enabled; timeout = 0; last_reset = 0 }

-- The calls of other parts of the program.
pub data Call : Type 0 where
  save_rtc_data : ℕ → Call
  system_restart_defered led_pattern_b led_stop_pattern wifi_stop_scan : Call
  set_my_auto_connect : Bool → Call
  wifi_station_disconnect : Call
  wifi_set_opmode_current : Opmode → Call
  wifi_default wifi_fallback_force_reset_state wifi_start_scan_long : Call

-- The list and its length, the timer of `force_reset_wifi`, `disconnect_count`, the opmode, the clock,
-- and the calls so far, the last one first.
pub record Watchdogs : Type 0 where
  pub watchdog_list : List Watchdog
  pub watchdog_list_len : ℕ
  pub watchdog_timer : Timer
  pub wifi_reconnect_timer : Timer
  pub disconnect_count : ℕ
  pub opmode : Opmode
  pub clock : Clock
  pub calls : List Call

abbrev pub call : Call → Watchdogs → Watchdogs
call c s = record s { calls = c ∷ s.calls }

abbrev pub set_opmode : Opmode → Watchdogs → Watchdogs
set_opmode mode s = record (call (wifi_set_opmode_current mode) s) { opmode = mode }

-- `uptime = get_uptime()`, where SNTP answers `raw`.
abbrev pub uptime : ℕ → Watchdogs → ℕ × Watchdogs
uptime raw s = let r = get_uptime raw s.clock in (r.0, record s { clock = r.1 })

unfoldable pub init_watchdog : Watchdogs → Watchdogs
init_watchdog s = record s {
  watchdog_list = replicate watchdog_max empty_slot;
  watchdog_list_len = 0;
}

-- `start_watchdog` and `stop_watchdog`, without the LED.
unfoldable pub start_watchdog : Watchdogs → Watchdogs
start_watchdog s = record s { watchdog_timer = every 1000 }

unfoldable pub stop_watchdog : Watchdogs → Watchdogs
stop_watchdog s = record s { watchdog_timer = stopped; wifi_reconnect_timer = stopped }

unfoldable pub add_watchdog : ℕ → ℕ → WatchdogType → ℕ → Watchdogs → Bool × Watchdogs
add_watchdog raw id type timeout s =
    if ltb s.watchdog_list_len watchdog_max
    then (let r = uptime raw s in
        let slot : Watchdog = record {
          id = id;
          type = type;
          timeout = timeout;
          last_reset = r.0 % 2 ^ 32;
        } in
        (
          true,
          record r.1 {
            watchdog_list = set s.watchdog_list s.watchdog_list_len slot;
            watchdog_list_len = s.watchdog_list_len + 1;
          },
        ))
    else (false, s)

-- The first of `fuel` indices from `i` on whose slot has the id, or `i + fuel`.
unfoldable pub find_id : ℕ → ℕ → List Watchdog → ℕ → ℕ
find_id zero i l id = i
find_id (suc fuel) i l id = elim ((get_or l i empty_slot).id == id) [
  | true ↦ i
  | false ↦ find_id fuel (suc i) l id
]

-- Moves `fuel` slots from `i + 1` on down by one.
unfoldable pub shift_down : ℕ → ℕ → List Watchdog → List Watchdog
shift_down zero i l = l
shift_down (suc fuel) i l = shift_down fuel (suc i) (set l i (get_or l (suc i) empty_slot))

unfoldable pub remove_watchdog : ℕ → Watchdogs → Bool × Watchdogs
remove_watchdog id s =
    let len = s.watchdog_list_len in
    let i = find_id len 0 s.watchdog_list id in
    if len == 0
    then (false, s)
    else if i == len
    then (false, s)
    else (let shifted = shift_down (len - 1 - i) i s.watchdog_list in
        (
          true,
          record s {
            watchdog_list = set shifted (len - 1) empty_slot;
            watchdog_list_len = len - 1;
          },
        ))

-- The loop of `reset_watchdog` over the slots.
unfoldable pub reset_slots : ℕ → ℕ → List Watchdog → List Watchdog
reset_slots id up [] = []
reset_slots id up (w ∷ l) =
    (if w.id == id then record w { last_reset = up % 2 ^ 32 } else w) ∷ reset_slots id up l

unfoldable pub reset_watchdog : ℕ → ℕ → Watchdogs → Watchdogs
reset_watchdog raw id s =
    let r = uptime raw s in record r.1 { watchdog_list = reset_slots id r.0 s.watchdog_list }

unfoldable pub force_reset_wifi : Watchdogs → Watchdogs
force_reset_wifi s =
    let s = call (set_my_auto_connect false) (call wifi_stop_scan (call led_pattern_b s)) in
    let s = set_opmode null_mode (call wifi_station_disconnect s) in
    record s {
      wifi_reconnect_timer = once 6000;
      disconnect_count = (s.disconnect_count + 1) % 2 ^ 32;
    }

-- The timer of `force_reset_wifi`, where `scanning` is `wifi_scan_is_running()` and `ap_enabled` the
-- setting.
unfoldable pub wifi_reconnect_timer_func : Bool → Bool → Watchdogs → Watchdogs
wifi_reconnect_timer_func scanning ap_enabled s =
    if scanning
    then record s { wifi_reconnect_timer = once 1000 }
    else (let s = record s { wifi_reconnect_timer = stopped } in
        let s =
          (if ap_enabled
            then (if is_station_ap s.opmode then s else set_opmode station_ap_mode s)
            else (if is_station s.opmode then s else set_opmode station_mode s)) in
        let s = call (set_my_auto_connect true) (call led_stop_pattern s) in
        call wifi_start_scan_long (call wifi_fallback_force_reset_state (call wifi_default s)))

abbrev pub is_not_enabled : WatchdogType → Bool
is_not_enabled not_enabled = true
is_not_enabled reboot = false
is_not_enabled network_restart = false

-- What a watchdog does when its time is over.
unfoldable pub trigger : WatchdogType → Watchdogs → Watchdogs
trigger not_enabled s = s
trigger reboot s = call system_restart_defered (call (save_rtc_data 1) s)
trigger network_restart s = force_reset_wifi s

-- The test of a slot at the uptime `up`: not disabled, and over its time.
unfoldable pub is_expired : ℕ → Watchdog → Bool
is_expired up w =
    not (is_not_enabled w.type || w.last_reset == 0) && ltb w.timeout (sub64 up w.last_reset)

-- One pass of the loop of `watchdog_timer_func`.
unfoldable pub check_slot : ℕ → ℕ → Watchdogs → Watchdogs
check_slot up i s =
    let w = get_or s.watchdog_list i empty_slot in
    if is_expired up w
    then (let s = trigger w.type s in
        record s { watchdog_list = set s.watchdog_list i (record w { last_reset = up % 2 ^ 32 }) })
    else s

unfoldable pub check_slots : ℕ → ℕ → ℕ → Watchdogs → Watchdogs
check_slots zero up i s = s
check_slots (suc fuel) up i s = check_slots fuel up (suc i) (check_slot up i s)

unfoldable pub watchdog_timer_func : ℕ → Watchdogs → Watchdogs
watchdog_timer_func raw s = let r = uptime raw s in check_slots watchdog_max r.0 0 r.1

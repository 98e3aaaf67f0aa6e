-- ===== src/Watchdog/Expiry.antt =====
-- What one firing of the timer of user/watchdog.c triggers.
use meter_logger.Prelude.{
  ℕ, ◌+◌, ◌%◌, ◌^◌, ◌≤◌, ◌<◌, ◌≡◌, ◌∙◌, inl, inr, refl, ap, sym, append_assoc, Bool, Bool-cases,
  false, ◌&&◌, not, if◌then◌else◌, ltb, ◌==◌, List, [], ◌∷◌, ◌++◌, get_or, set, map, arith,
}
use meter_logger.Sdk.{null_mode}
use meter_logger.Clock.{get_uptime}
use meter_logger.Watchdog.{
  Watchdog, WatchdogType, not_enabled, reboot, network_restart, empty_slot, Watchdogs, Call,
  save_rtc_data, system_restart_defered, led_pattern_b, wifi_stop_scan, set_my_auto_connect,
  wifi_station_disconnect, wifi_set_opmode_current, uptime, force_reset_wifi, is_not_enabled,
  trigger, is_expired, check_slot, check_slots, watchdog_timer_func,
}

-- The calls of a watchdog whose time is over, the last one first: a reboot that leaves a mark in the
-- memory of the clock, or a restart of the radio.
abbrev pub calls_of : WatchdogType → List Call
calls_of not_enabled = []
calls_of reboot = system_restart_defered ∷ save_rtc_data 1 ∷ []
calls_of network_restart =
    wifi_set_opmode_current null_mode
    ∷ wifi_station_disconnect
    ∷ set_my_auto_connect false
    ∷ wifi_stop_scan
    ∷ led_pattern_b
    ∷ []

-- A watchdog that is enabled and was reset more than its timeout before `up`.
abbrev pub is_over : ℕ → Watchdog → Bool
is_over up w =
    not (is_not_enabled w.type) && not (w.last_reset == 0) && ltb (w.last_reset + w.timeout) up

-- The calls that the watchdogs make at the uptime `up`, and the watchdogs afterwards.
abbrev pub all_calls : ℕ → List Watchdog → List Call
all_calls up [] = []
all_calls up (w ∷ l) = all_calls up l ++ (if is_over up w then calls_of w.type else [])

abbrev pub restarted : ℕ → Watchdog → Watchdog
restarted up w = if is_over up w then record w { last_reset = up % 2 ^ 32 } else w

is_expired-is_over :
    (up : ℕ) (w : Watchdog) → w.last_reset ≤ up → up < 2 ^ 64 → is_expired up w ≡ is_over up w
unfolding is_expired
is_expired-is_over up w h k = ground arith

trigger_lem :
    (t : WatchdogType) (s : Watchdogs)
    → ((trigger t s).calls ≡ calls_of t ++ s.calls)
      × ((trigger t s).watchdog_list ≡ s.watchdog_list)
unfolding trigger force_reset_wifi
trigger_lem not_enabled s = (refl, refl)
trigger_lem reboot s = (refl, refl)
trigger_lem network_restart s = (refl, refl)

-- One pass of the loop, on a slot that holds `w`.
check_slot_lem :
    (up i : ℕ) (w : Watchdog) (s : Watchdogs)
    → get_or s.watchdog_list i empty_slot ≡ w
    → w.last_reset ≤ up
    → up < 2 ^ 64
    → set s.watchdog_list i w ≡ s.watchdog_list
    → ((check_slot up i s).calls ≡ (if is_over up w then calls_of w.type else []) ++ s.calls)
      × ((check_slot up i s).watchdog_list ≡ set s.watchdog_list i (restarted up w))
unfolding check_slot
check_slot_lem up i w s h b c same =
    let e = is_expired-is_over up w b c in
    let t = trigger_lem w.type s in
    let v : Watchdog = record w { last_reset = up % 2 ^ 32 } in
    elim (Bool-cases (is_over up w)) [
      | inl over ↦ rw (check_slot, h, e, over) (t.0, ap (λ l. set l i v) t.1)
      | inr quiet ↦ rw (check_slot, h, e, quiet) (refl, sym same)
    ]

-- When the uptime is below 2 ^ 64 and not before a last reset, one firing of the timer makes the calls of each watchdog
-- that is enabled and whose last reset is not 0 and lies more than its timeout ago, the first slot before the second,
-- and starts it again; the others stay as they are.
pub watchdog_timer_func_lem :
    (raw up : ℕ) (a b : Watchdog) (s : Watchdogs)
    → s.watchdog_list ≡ a ∷ b ∷ []
    → (get_uptime raw s.clock).0 ≡ up
    → up < 2 ^ 64
    → a.last_reset ≤ up
    → b.last_reset ≤ up
    → let t = watchdog_timer_func raw s in
      (t.calls ≡ all_calls up (a ∷ b ∷ []) ++ s.calls)
      × (t.watchdog_list ≡ map (restarted up) (a ∷ b ∷ []))
unfolding watchdog_timer_func check_slots
watchdog_timer_func_lem raw up a b s l u k p q =
    let r = (uptime raw s).1 in
    let one =
      check_slot_lem up 0 a r (ap (λ l. get_or l 0 empty_slot) l) p k
        (ap (λ l. set l 0 a) l ∙ sym l) in
    let r' = check_slot up 0 r in
    let l' = one.1 ∙ ap (λ l. set l 0 (restarted up a)) l in
    let two =
      check_slot_lem up 1 b r' (ap (λ l. get_or l 1 empty_slot) l') q k
        (ap (λ l. set l 1 b) l' ∙ sym l') in
    rw u (
      two.0
          ∙ ap (λ c. (if is_over up b then calls_of b.type else []) ++ c) one.0
          ∙ sym (
              append_assoc (if is_over up b then calls_of b.type else [])
                (if is_over up a then calls_of a.type else []) s.calls),
      two.1 ∙ ap (λ l. set l 1 (restarted up b)) l',
    )

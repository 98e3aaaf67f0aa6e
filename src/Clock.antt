-- ===== src/Clock.antt =====
-- user/unix_time.c: the clock, which widens the 32 bits of SNTP to 64, and the uptime. The module Follow
-- proves about the clock, Uptime about the uptime.
use meter_logger.Prelude.{ℕ, ◌+◌, ◌-◌, ◌%◌, ◌^◌, Bool, true, false, ◌&&◌, if◌then◌else◌, ltb, ◌==◌}
use meter_logger.Sdk.{Timer, stopped, once, every}
pub mod Follow
pub mod Uptime
pub mod Tests

-- The variables of the file. The counter of the seconds without an answer of NTP is
-- `ntp_offline_second_counter`.
pub record Clock : Type 0 where
  pub init_time : ℕ
  pub current_unix_time : ℕ
  pub ntp_offline_second_counter : ℕ
  pub last_sntp_raw : ℕ
  pub epoch_overflow_offset : ℕ
  pub sntp_check_timer : Timer
  pub ntp_offline_second_counter_timer : Timer

-- Addition and subtraction on `uint64_t`.
abbrev pub add64 : ℕ → ℕ → ℕ
add64 a b = (a + b) % 2 ^ 64

abbrev pub sub64 : ℕ → ℕ → ℕ
sub64 a b = (a + (2 ^ 64 - b)) % 2 ^ 64

unfoldable pub init_unix_time : Clock → Clock
init_unix_time s = record s {
  last_sntp_raw = 0;
  epoch_overflow_offset = 0;
  sntp_check_timer = once 2000;
  ntp_offline_second_counter = 0;
  ntp_offline_second_counter_timer = every 1000;
}

-- `get_unix_time`, where SNTP answers `sntp_raw`.
unfoldable pub get_unix_time : ℕ → Clock → ℕ × Clock
get_unix_time sntp_raw s =
    if sntp_raw == 0
    then (0, s)
    else (let rolled = ltb sntp_raw s.last_sntp_raw && ltb 0xf0000000 s.last_sntp_raw in
        let offset =
          if rolled then add64 s.epoch_overflow_offset (2 ^ 32) else s.epoch_overflow_offset in
        let now = add64 offset sntp_raw in
        (
          now,
          record s {
            epoch_overflow_offset = offset;
            last_sntp_raw = sntp_raw;
            current_unix_time = now;
          },
        ))

-- `current_unix_time = get_unix_time()`
unfoldable pub read_clock : ℕ → Clock → Clock
read_clock sntp_raw s = let r = get_unix_time sntp_raw s in record r.1 { current_unix_time = r.0 }

unfoldable pub get_uptime : ℕ → Clock → ℕ × Clock
get_uptime sntp_raw s =
    let s = read_clock sntp_raw s in
    if s.init_time == 0
    then (s.ntp_offline_second_counter, s)
    else (add64 (sub64 s.current_unix_time s.init_time) s.ntp_offline_second_counter, s)

unfoldable pub sntp_check_timer_func : ℕ → Clock → Clock
sntp_check_timer_func sntp_raw s =
    let s = read_clock sntp_raw s in
    if s.current_unix_time == 0
    then record s { sntp_check_timer = once 2000 }
    else (let s = record s {
      sntp_check_timer = stopped;
      ntp_offline_second_counter_timer = stopped;
    } in
        if s.init_time == 0 then record s { init_time = s.current_unix_time } else s)

unfoldable pub ntp_offline_second_counter_timer_func : Clock → Clock
ntp_offline_second_counter_timer_func s = record s {
  ntp_offline_second_counter = add64 s.ntp_offline_second_counter 1;
}

unfoldable pub destroy_unix_time : Clock → Clock
destroy_unix_time s = record s {
  sntp_check_timer = stopped;
  ntp_offline_second_counter_timer = stopped;
}

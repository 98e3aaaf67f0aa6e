-- ===== src/Clock/Uptime.antt =====
-- The uptime of user/unix_time.c.
use meter_logger.Prelude.{ℕ, ◌+◌, ◌-◌, ◌^◌, ◌≤◌, ◌<◌, ◌≡◌, ◌≢◌, arith}
use meter_logger.Sdk.{stopped}
use meter_logger.Clock.{Clock, get_unix_time, read_clock, get_uptime, sntp_check_timer_func}

-- The clock reads `now` off the answer `raw`.
abbrev pub Reads : ℕ → ℕ → Clock → Type 0
Reads raw now s = (get_unix_time raw s).0 ≡ now

-- Reading the clock leaves the uptime's variables and the timers.
abbrev Kept : Clock → Clock → Type 0
Kept s t =
    (t.init_time ≡ s.init_time)
    × (t.ntp_offline_second_counter ≡ s.ntp_offline_second_counter)
    × (t.sntp_check_timer ≡ s.sntp_check_timer)
    × (t.ntp_offline_second_counter_timer ≡ s.ntp_offline_second_counter_timer)

get_unix_time-Kept : (raw : ℕ) (s : Clock) → Kept s (get_unix_time raw s).1
unfolding get_unix_time
get_unix_time-Kept raw s = ground arith

read_clock-Kept : (raw : ℕ) (s : Clock) → Kept s (read_clock raw s)
unfolding read_clock
read_clock-Kept raw s = get_unix_time-Kept raw s

-- The uptime before the first answer of NTP.
uptime_offline :
    (raw : ℕ) (s : Clock) → s.init_time ≡ 0 → (get_uptime raw s).0 ≡ s.ntp_offline_second_counter
unfolding get_uptime
uptime_offline raw s h = ground (arith, read_clock-Kept raw s)

uptime_online :
    (raw now : ℕ) (s : Clock)
    → s.init_time ≢ 0
    → Reads raw now s
    → s.init_time ≤ now
    → now + s.ntp_offline_second_counter < 2 ^ 64
    → (get_uptime raw s).0 ≡ s.ntp_offline_second_counter + (now - s.init_time)
unfolding get_uptime read_clock
uptime_online raw now s h r le fits = ground (arith, get_unix_time-Kept raw s)

-- The first answer of NTP.
first_answer :
    (raw now : ℕ) (s : Clock)
    → s.init_time ≡ 0
    → now ≢ 0
    → Reads raw now s
    → let t = sntp_check_timer_func raw s in
      (t.init_time ≡ now)
      × (t.ntp_offline_second_counter ≡ s.ntp_offline_second_counter)
      × (t.ntp_offline_second_counter_timer ≡ stopped)
      × (t.sntp_check_timer ≡ stopped)
unfolding sntp_check_timer_func read_clock
first_answer raw now s h z r = ground (arith, get_unix_time-Kept raw s)

-- With no answer of NTP so far, the first answer that the clock reads as a time other than 0 leaves the uptime as it is.
-- When the clock then reads a later time or the same, which with the seconds without NTP is below 2 ^ 64, the
-- uptime has grown by the difference. The counter of the seconds without NTP and the check for the answer end.
pub uptime-continues :
    (raw raw' now now' : ℕ) (s : Clock)
    → s.init_time ≡ 0
    → now ≢ 0
    → Reads raw now s
    → now ≤ now'
    → now' + s.ntp_offline_second_counter < 2 ^ 64
    → Reads raw' now' (sntp_check_timer_func raw s)
    → let t = sntp_check_timer_func raw s in
      ((get_uptime raw s).0 ≡ s.ntp_offline_second_counter)
      × ((get_uptime raw' t).0 ≡ s.ntp_offline_second_counter + (now' - now))
      × (t.ntp_offline_second_counter_timer ≡ stopped)
      × (t.sntp_check_timer ≡ stopped)
uptime-continues raw raw' now now' s h z r le fits q =
    let t = sntp_check_timer_func raw s in
    ground (arith, first_answer raw now s h z r, uptime_offline raw s h, uptime_online raw' now' t)

-- Once NTP has answered, an answer 0 of SNTP, as at the rollover of its 32 bits, makes the uptime huge.
pub uptime-huge :
    (s : Clock)
    → s.ntp_offline_second_counter < s.init_time
    → s.init_time < 2 ^ 64
    → (get_uptime 0 s).0 ≡ 2 ^ 64 - (s.init_time - s.ntp_offline_second_counter)
unfolding get_uptime read_clock get_unix_time
uptime-huge s h b = ground arith

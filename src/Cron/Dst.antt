-- ===== src/Cron/Dst.antt =====
-- user/cron/cron.c: the summer time of Copenhagen, as `minute_timer_func` decides it from UTC + 1.
use meter_logger.Prelude.{ℕ, ◌+◌, ◌*◌, Bool, true, false, ◌&&◌, ◌||◌, if◌then◌else◌, ltb, leb, ◌==◌}

-- The fields of `struct tm` that the code reads.
pub record Tm : Type 0 where
  pub tm_sec : ℕ
  pub tm_min : ℕ
  pub tm_hour : ℕ
  pub tm_mday : ℕ
  pub tm_mon : ℕ
  pub tm_wday : ℕ

-- `s`, the seconds of the day.
abbrev pub second_of_day : Tm → ℕ
second_of_day dt = dt.tm_hour * 3600 + dt.tm_min * 60 + dt.tm_sec

-- `previous_sunday >= 25`, where `previous_sunday = dt->tm_mday - dt->tm_wday` may be negative.
abbrev pub late_sunday : Tm → Bool
late_sunday dt = leb (25 + dt.tm_wday) dt.tm_mday

unfoldable pub in_dst : Tm → Bool
in_dst dt =
    if ltb dt.tm_mon 2 || ltb 9 dt.tm_mon
    then false
    else if ltb 2 dt.tm_mon && ltb dt.tm_mon 9
    then true
    else if dt.tm_mon == 2
    then (if late_sunday dt
        then (if dt.tm_wday == 0 then leb 7200 (second_of_day dt) else true)
        else false)
    else if dt.tm_mon == 9
    then (if late_sunday dt
        then (if dt.tm_wday == 0 then ltb (second_of_day dt) 3600 else false)
        else true)
    else false

-- ===== src/Cron/Summer.antt =====
-- The summer time of user/cron/cron.c against the rule of the European Union, in UTC + 1: it begins on
-- the last Sunday of March at 2:00 (1:00 UTC) and ends on the last Sunday of October at 2:00 (1:00 UTC).
use meter_logger.Prelude.{ℕ, ◌+◌, ◌-◌, ◌*◌, ◌%◌, ◌≤◌, ◌<◌, ◌≡◌, ◌↔◌, ◌⊎◌, true, arith}
use meter_logger.Cron.Dst.{Tm, second_of_day, in_dst}

-- What `gmtime` fills in.
pub record IsDate (dt : Tm) : Type 0 where
  pub mon : dt.tm_mon ≤ 11
  pub mday : (1 ≤ dt.tm_mday) × (dt.tm_mday ≤ 31)
  pub wday : dt.tm_wday ≤ 6
  pub hour : dt.tm_hour ≤ 23
  pub min : dt.tm_min ≤ 59
  pub sec : dt.tm_sec ≤ 59

-- The day of a month of 31 days on which its last Sunday falls, if the day `mday` has the weekday
-- `wday`: the Sunday before or on the seventh day from the end, moved to the last seven days.
abbrev pub last_sunday : Tm → ℕ
last_sunday dt = 31 - (31 + dt.tm_wday + 35 - dt.tm_mday) % 7

-- The seconds from the start of the month.
abbrev pub second_of_month : Tm → ℕ
second_of_month dt = dt.tm_mday * 86400 + second_of_day dt

-- Summer time by the rule, in UTC + 1.
abbrev pub IsSummer : Tm → Type 0
IsSummer dt =
    ((3 ≤ dt.tm_mon) × (dt.tm_mon ≤ 8))
    ⊎ ((dt.tm_mon ≡ 2) × (last_sunday dt * 86400 + 7200 ≤ second_of_month dt))
    ⊎ ((dt.tm_mon ≡ 9) × (second_of_month dt < last_sunday dt * 86400 + 7200))

-- The hour before the end of the summer time.
abbrev pub LastHour : Tm → Type 0
LastHour dt =
    (dt.tm_mon ≡ 9)
    × (dt.tm_mday ≡ last_sunday dt)
    × (3600 ≤ second_of_day dt)
    × (second_of_day dt < 7200)

in_dst_sound : (dt : Tm) → IsDate dt → in_dst dt ≡ true → IsSummer dt
unfolding in_dst
in_dst_sound dt d h = ground arith

-- The code reports summer time exactly when the rule does, but for the hour before its end.
pub in_dst_iff : (dt : Tm) → IsDate dt → (in_dst dt ≡ true) ↔ (IsSummer dt × (¬ LastHour dt))
unfolding in_dst
in_dst_iff dt d = ground arith

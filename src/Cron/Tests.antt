-- ===== src/Cron/Tests.antt =====
-- Runs of the jobs of user/cron/cron.c.
use meter_logger.Prelude.{List, ◌-◌, ◌%◌, ◌≡◌, ◌↔◌, inr, refl, true, false, [], ◌∷◌, take, arith}
use meter_logger.Prelude.Text.{codes, text_eq, atoi, is_space, is_digit, signed_from, digits_from}
use meter_logger.Sdk.{once, station_mode}
use meter_logger.Cron.Dst.{Tm, in_dst}
use meter_logger.Cron.Summer.{IsDate, IsSummer, LastHour, in_dst_iff}
use meter_logger.Cron.Job.{CronJob, is_due, field_counts, is_value}
use meter_logger.Cron.Timer.{Cron, Surroundings, local_time, sync, minute_timer_func}
use meter_logger.Cron.Minutes.{tick, IsTimed, tick-IsTimed}
use meter_logger.Cron.Commands.{IsChosen, act}
use meter_logger.Cron.Due.{minute_timer_func-runs}

-- Sunday, the 25th of October, at 0:30:20 in UTC + 1.
abbrev change_day : Tm
change_day = record { tm_sec = 20; tm_min = 30; tm_hour = 0; tm_mday = 25; tm_mon = 9; tm_wday = 0 }

change_day-IsDate : IsDate change_day
change_day-IsDate = record {
  mon = omega arith;
  mday = (omega arith, omega arith);
  wday = omega arith;
  hour = omega arith;
  min = omega arith;
  sec = omega arith;
}

in_dst_iff_example : (in_dst change_day ≡ true) ↔ (IsSummer change_day × (¬ LastHour change_day))
in_dst_iff_example = in_dst_iff change_day change_day-IsDate

-- "minute=30&hour=00&day_of_week=7&command=open", the other fields left out.
abbrev job : CronJob
job = record {
  minute = codes "30";
  hour = codes "00";
  day_of_month = [];
  month = codes "*";
  day_of_week = codes "7";
  command = codes "open";
  command_params = [];
}

-- The job is due.
job_due : is_due job change_day ≡ true
unfolding is_due field_counts is_value text_eq atoi is_space is_digit signed_from digits_from
job_due = refl

-- The surroundings at that time, and the state with one job and the timer out of step.
abbrev now : Surroundings
now = record {
  ota_in_progress = false;
  get_unix_time = 1792884620;
  gmtime = λ t. change_day;
  ssid_pwd_saved = λ p. true;
  has_connection = false;
}

abbrev state : Cron
state = record {
  timer = once 7000;
  sec_drift = 7;
  n = 1;
  cron_job_list = job ∷ [];
  ap_enabled = false;
  opmode = station_mode;
  calls = [];
}

local_time-at_now : local_time now ≡ change_day
unfolding local_time in_dst
local_time-at_now = refl

tick-IsTimed_example :
    IsTimed (tick now state) × ((tick now state).sec_drift ≡ (60 - (local_time now).tm_sec) % 60)
tick-IsTimed_example =
    tick-IsTimed now state (inr (omega arith, refl)) refl (omega arith)
      (rw local_time-at_now (omega arith))

minute_timer_func-runs_example :
    (chosen : List CronJob) × IsChosen (local_time now) (take 1 (job ∷ [])) chosen
    × (minute_timer_func now state ≡ act now chosen (sync (local_time now) state))
minute_timer_func-runs_example = minute_timer_func-runs now state (omega arith) refl (omega arith)

-- ===== src/Cron/Job.antt =====
-- user/cron/cron.c: the job of `cron_job_t` and the test by which `minute_timer_func` selects it.
use meter_logger.Prelude.{ℕ, ◌+◌, ◌%◌, Bool, ◌&&◌, ◌||◌, not, if◌then◌else◌, ◌==◌}
use meter_logger.Prelude.Text.{Text, Signed, codes, text_eq, atoi}
use meter_logger.Cron.Dst.{Tm}

-- `cron_job_t`, its strings without the terminating NUL.
pub record CronJob : Type 0 where
  pub minute : Text
  pub hour : Text
  pub day_of_month : Text
  pub month : Text
  pub day_of_week : Text
  pub command : Text
  pub command_params : Text

-- `v == n` for an `int` n and a value v that is not negative.
unfoldable pub is_value : ℕ → Signed → Bool
is_value v n = (not n.negative || n.magnitude == 0) && n.magnitude == v

-- `n % 7` for an `int` n, which keeps the sign of n.
abbrev pub int_mod : Signed → ℕ → Signed
int_mod n k = record { negative = n.negative; magnitude = n.magnitude % k }

-- The steps of the counter `run_command` for a field: 1 on "*", on "" and on the value itself.
unfoldable pub field_counts : Text → Bool → ℕ
field_counts field same =
    if text_eq field (codes "*")
    then 1
    else if text_eq field (codes "")
    then 1
    else if same
    then 1
    else 0

-- `run_command == 5` after the five fields.
unfoldable pub is_due : CronJob → Tm → Bool
is_due job dt =
    (field_counts job.hour (is_value dt.tm_hour (atoi job.hour))
      + field_counts job.minute (is_value dt.tm_min (atoi job.minute))
      + field_counts job.day_of_month (is_value dt.tm_mday (atoi job.day_of_month))
      + field_counts job.month (is_value (dt.tm_mon + 1) (atoi job.month))
      + field_counts job.day_of_week (is_value dt.tm_wday (int_mod (atoi job.day_of_week) 7)))
    == 5

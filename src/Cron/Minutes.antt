-- ===== src/Cron/Minutes.antt =====
-- The minute timer of user/cron/cron.c over its firings, and the jobs that one firing runs.
use meter_logger.Prelude.{
  ℕ, zero, suc, ◌-◌, ◌*◌, ◌%◌, ◌≤◌, ◌≡◌, ◌≢◌, ◌⊎◌, refl, true, false, get_or, arith,
}
use meter_logger.Prelude.Text.{Text}
use meter_logger.Sdk.{stopped, once, every, fire}
use meter_logger.Cron.Dst.{Tm}
use meter_logger.Cron.Timer.{
  Cron, Surroundings, empty_job, Command, open_valve, close_valve, save_ssid_pwd, reconnect,
  begin_ap, end_ap, clear_cron, off, test, other, command_of, run_command, check_job, check_jobs,
  clear_cron_jobs, start_ap, stop_ap, set_ssid_pwd, sync, local_time, minute_timer_func,
}

-- The handler when the timer fires.
abbrev pub tick : Surroundings → Cron → Cron
tick e s = minute_timer_func e (record s { timer = fire s.timer })

-- The timer is armed as `sec_drift` says.
abbrev pub IsTimed : Cron → Type 0
IsTimed s =
    ((s.sec_drift ≡ 0) × (s.timer ≡ every 60000))
    ⊎ ((1 ≤ s.sec_drift) × (s.timer ≡ once (s.sec_drift * 1000)))

-- What two states share in the timer, and in the jobs.
abbrev pub SameTimer : Cron → Cron → Type 0
SameTimer s t = (t.timer ≡ s.timer) × (t.sec_drift ≡ s.sec_drift)

abbrev pub SameJobs : Cron → Cron → Type 0
SameJobs s t = (t.n ≡ s.n) × (t.cron_job_list ≡ s.cron_job_list)

-- The commands on the access point and the password touch neither.
pub ap_commands :
    (e : Surroundings) (p : Text) (s : Cron)
    → (SameTimer s (start_ap s) × SameTimer s (stop_ap s) × SameTimer s (set_ssid_pwd e p s))
      × (SameJobs s (start_ap s) × SameJobs s (stop_ap s) × SameJobs s (set_ssid_pwd e p s))
unfolding start_ap stop_ap set_ssid_pwd
ap_commands e p s = ground arith

run_command-SameTimer :
    (e : Surroundings) (c : Command) (p : Text) (s : Cron) → SameTimer s (run_command e c p s)
unfolding run_command clear_cron_jobs
run_command-SameTimer e open_valve p s = (refl, refl)
run_command-SameTimer e close_valve p s = (refl, refl)
run_command-SameTimer e save_ssid_pwd p s = (ap_commands e p s).0.2
run_command-SameTimer e reconnect p s = ground arith
run_command-SameTimer e begin_ap p s = (ap_commands e p s).0.0
run_command-SameTimer e end_ap p s = (ap_commands e p s).0.1
run_command-SameTimer e clear_cron p s = (refl, refl)
run_command-SameTimer e off p s = (refl, refl)
run_command-SameTimer e test p s = (refl, refl)
run_command-SameTimer e other p s = (refl, refl)

check_job-SameTimer :
    (e : Surroundings) (dt : Tm) (i : ℕ) (s : Cron) → SameTimer s (check_job e dt i s)
unfolding check_job
check_job-SameTimer e dt i s =
    let job = get_or s.cron_job_list i empty_job in
    ground (arith, run_command-SameTimer e (command_of job.command) job.command_params s)

check_jobs-SameTimer :
    (fuel : ℕ) (e : Surroundings) (dt : Tm) (i : ℕ) (s : Cron)
    → SameTimer s (check_jobs fuel e dt i s)
unfolding check_jobs
check_jobs-SameTimer zero e dt i s = (refl, refl)
check_jobs-SameTimer (suc fuel) e dt i s = ground (
  arith,
  check_jobs-SameTimer fuel e dt (suc i) (check_job e dt i s),
  check_job-SameTimer e dt i s,
)

sync_lem :
    (dt : Tm) (s : Cron)
    → dt.tm_sec ≤ 59
    → IsTimed s ⊎ (1 ≤ s.sec_drift)
    → IsTimed (sync dt s) × ((sync dt s).sec_drift ≡ (60 - dt.tm_sec) % 60)
unfolding sync
sync_lem dt s h t = ground arith

-- While no upgrade runs and the clock is set, each firing of the timer arms it again: to fire once
-- after the seconds that are missing to the full minute, and each minute once it is in step.
pub tick-IsTimed :
    (e : Surroundings) (s : Cron)
    → IsTimed s
    → e.ota_in_progress ≡ false
    → e.get_unix_time ≢ 0
    → (local_time e).tm_sec ≤ 59
    → IsTimed (tick e s) × ((tick e s).sec_drift ≡ (60 - (local_time e).tm_sec) % 60)
unfolding minute_timer_func
tick-IsTimed e s t o u h =
    let f = record s { timer = fire s.timer } in
    let g = sync (local_time e) f in
    ground (arith, check_jobs-SameTimer s.n e (local_time e) 0 g, sync_lem (local_time e) f)

-- When the timer is armed for one firing and that firing meets an upgrade or a clock that is not set,
-- the handler leaves the timer stopped, and no job runs.
tick-stopped :
    (e : Surroundings) (s : Cron) (ms : ℕ)
    → s.timer ≡ once ms
    → (e.ota_in_progress ≡ true) ⊎ (e.get_unix_time ≡ 0)
    → ((tick e s).timer ≡ stopped) × ((tick e s).calls ≡ s.calls)
unfolding minute_timer_func
tick-stopped e s ms t o = ground arith

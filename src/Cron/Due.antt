-- ===== src/Cron/Due.antt =====
-- The jobs that one firing of the minute timer of user/cron/cron.c runs.
use meter_logger.Prelude.{
  ℕ, zero, suc, ◌+◌, ◌≤◌, ◌<◌, ◌≡◌, ◌≢◌, inl, inr, refl, sym, ap, ◌∙◌, subst, Bool-cases, true,
  false, if◌then◌else◌, lt→ltb, List, [], ◌∷◌, length, get_or, get_or-take, length-take, take,
  arith,
}
use meter_logger.Prelude.Text.{Text}
use meter_logger.Cron.Commands.{
  clears, due_jobs, run_all, act, IsChosen, due_jobs-IsChosen, run_all-act,
}
use meter_logger.Cron.Dst.{Tm}
use meter_logger.Cron.Job.{CronJob, is_due}
use meter_logger.Cron.Timer.{
  Cron, Surroundings, empty_job, Command, open_valve, close_valve, save_ssid_pwd, reconnect,
  begin_ap, end_ap, clear_cron, off, test, other, command_of, run_command, check_job, check_jobs,
  clear_cron_jobs, sync, local_time, minute_timer_func,
}
use meter_logger.Cron.Minutes.{SameJobs, ap_commands}

run_command-SameJobs :
    (e : Surroundings) (c : Command) (p : Text) (s : Cron)
    → clears c ≡ false
    → SameJobs s (run_command e c p s)
unfolding run_command
run_command-SameJobs e open_valve p s h = (refl, refl)
run_command-SameJobs e close_valve p s h = (refl, refl)
run_command-SameJobs e save_ssid_pwd p s h = (ap_commands e p s).1.2
run_command-SameJobs e reconnect p s h = ground arith
run_command-SameJobs e begin_ap p s h = (ap_commands e p s).1.0
run_command-SameJobs e end_ap p s h = (ap_commands e p s).1.1
run_command-SameJobs e clear_cron p s h = absurd (cc)
run_command-SameJobs e off p s h = (refl, refl)
run_command-SameJobs e test p s h = (refl, refl)
run_command-SameJobs e other p s h = (refl, refl)

run_command-clears :
    (e : Surroundings) (c : Command) (p : Text) (s : Cron)
    → clears c ≡ true
    → (run_command e c p s).n ≡ 0
unfolding run_command clear_cron_jobs
run_command-clears e open_valve p s h = absurd (cc)
run_command-clears e close_valve p s h = absurd (cc)
run_command-clears e save_ssid_pwd p s h = absurd (cc)
run_command-clears e reconnect p s h = absurd (cc)
run_command-clears e begin_ap p s h = absurd (cc)
run_command-clears e end_ap p s h = absurd (cc)
run_command-clears e clear_cron p s h = refl
run_command-clears e off p s h = absurd (cc)
run_command-clears e test p s h = absurd (cc)
run_command-clears e other p s h = absurd (cc)

check_jobs-emptied :
    (fuel : ℕ) (e : Surroundings) (dt : Tm) (i : ℕ) (s : Cron)
    → s.n ≡ 0
    → check_jobs fuel e dt i s ≡ s
unfolding check_jobs
check_jobs-emptied zero e dt i s h = refl
check_jobs-emptied (suc fuel) e dt i s h = ground arith

-- The list has the jobs from the index `i` on.
abbrev HasFrom : ℕ → List CronJob → Cron → Type 0
HasFrom i jobs s =
    (s.n ≡ i + length jobs)
    × ((j : ℕ)
        → j < length jobs
        → get_or s.cron_job_list (i + j) empty_job ≡ get_or jobs j empty_job)

HasFrom-suc :
    (i : ℕ) (job : CronJob) (jobs : List CronJob) (s : Cron)
    → HasFrom i (job ∷ jobs) s
    → HasFrom (suc i) jobs s
HasFrom-suc i job jobs s h = (
  omega (arith, h.0),
  λ j lt.
      let shift : i + suc j ≡ suc i + j = omega arith in
      subst (λ k. get_or s.cron_job_list k empty_job ≡ get_or jobs j empty_job) shift
        (h.1 (suc j) (omega arith)),
)

check_job_at :
    (i : ℕ) (job : CronJob) (e : Surroundings) (dt : Tm) (s : Cron)
    → get_or s.cron_job_list i empty_job ≡ job
    → check_job e dt i s
      ≡ (if is_due job dt then run_command e (command_of job.command) job.command_params s else s)
unfolding check_job
check_job_at i job e dt s h = rw h refl

HasFrom-SameJobs :
    (i : ℕ) (jobs : List CronJob) (s t : Cron) → SameJobs s t → HasFrom i jobs s → HasFrom i jobs t
HasFrom-SameJobs i jobs s t p h =
    (omega (arith, h.0, p.0), λ j lt. ap (λ l. get_or l (i + j) empty_job) p.1 ∙ h.1 j lt)

check_jobs_from :
    (jobs : List CronJob) (i : ℕ) (e : Surroundings) (dt : Tm) (s : Cron)
    → HasFrom i jobs s
    → check_jobs (length jobs) e dt i s ≡ run_all e (due_jobs dt jobs) s
unfolding check_jobs
check_jobs_from [] i e dt s h = refl
check_jobs_from (job ∷ jobs) i e dt s h =
    let c = command_of job.command in
    let p = job.command_params in
    let t = run_command e c p s in
    let zeroth : i + 0 ≡ i = omega arith in
    let here = subst (λ k. get_or s.cron_job_list k empty_job ≡ job) zeroth (h.1 0 (omega arith)) in
    let at = check_job_at i job e dt s here in
    let later = HasFrom-suc i job jobs s h in
    let bound = lt→ltb i s.n (omega (arith, h.0)) in
    rw (check_jobs, bound)
      (rw at (elim (Bool-cases (is_due job dt)) [
        | inr stays ↦ rw stays (check_jobs_from jobs (suc i) e dt s later)
        | inl due ↦ rw due (elim (Bool-cases (clears c)) [
          | inl cleared ↦
              rw cleared (
                check_jobs-emptied (length jobs) e dt (suc i) t
                  (run_command-clears e c p s cleared))
          | inr stays ↦ rw stays (
              check_jobs_from jobs (suc i) e dt t
                (HasFrom-SameJobs (suc i) jobs s t (run_command-SameJobs e c p s stays) later))
        ])
      ]))

sync-SameJobs : (dt : Tm) (s : Cron) → SameJobs s (sync dt s)
unfolding sync
sync-SameJobs dt s = ground arith

-- When the clock is set, no upgrade runs and the list holds its count of jobs, one firing synchronizes the timer and
-- then does what the commands of the jobs ask for that are due, and of no other, in order, up to and including the
-- first `clear_cron`. A job is due when its hour, minute, day of the month, month and weekday all select the time.
-- The commands `open`, `close`, `off` and `test` make one call of the valve each.
pub minute_timer_func-runs :
    (e : Surroundings) (s : Cron)
    → s.n ≤ length s.cron_job_list
    → e.ota_in_progress ≡ false
    → e.get_unix_time ≢ 0
    → (chosen : List CronJob) × IsChosen (local_time e) (take s.n s.cron_job_list) chosen
      × (minute_timer_func e s ≡ act e chosen (sync (local_time e) s))
unfolding minute_timer_func
minute_timer_func-runs e s fits o u =
    let dt = local_time e in
    let n = s.n in
    let l = s.cron_job_list in
    let jobs = take n l in
    let len : length jobs ≡ n = omega (arith, length-take n l) in
    let from : HasFrom 0 jobs s = (
      sym len ∙ omega arith,
      λ j lt.
          let shift : j ≡ 0 + j = omega arith in
          subst (λ k. get_or l k empty_job ≡ get_or jobs j empty_job) shift
            (sym (get_or-take l n j empty_job (omega arith))),
    ) in
    let kept = HasFrom-SameJobs 0 jobs s (sync dt s) (sync-SameJobs dt s) from in
    let all = check_jobs_from jobs 0 e dt (sync dt s) kept in
    let whole =
      subst (λ k. check_jobs k e dt 0 (sync dt s) ≡ run_all e (due_jobs dt jobs) (sync dt s)) len
        all in
    (
      due_jobs dt jobs,
      due_jobs-IsChosen dt jobs,
      ground (arith, whole) ∙ run_all-act e (due_jobs dt jobs) (sync dt s),
    )

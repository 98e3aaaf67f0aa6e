-- ===== src/Cron/Commands.antt =====
-- What the jobs of user/cron/cron.c do that are due, by the texts of their fields and commands.
use meter_logger.Prelude.{
  ◌⊎◌, ◌≡◌, inl, inr, refl, ap, Bool, Bool-cases, true, false, if◌then◌else◌, List, [], ◌∷◌,
}
use meter_logger.Prelude.Text.{Text, codes, text_eq, text_eq_iff}
use meter_logger.Cron.Select.{IsDue, is_due_iff}
use meter_logger.Cron.Dst.{Tm}
use meter_logger.Cron.Job.{CronJob, is_due}
use meter_logger.Cron.Timer.{
  ac_thermo_open, ac_thermo_close, ac_off, ac_test, mqtt_disconnect, start_ap, stop_ap,
  set_ssid_pwd, Cron, Surroundings, Command, open_valve, close_valve, save_ssid_pwd, reconnect,
  begin_ap, end_ap, clear_cron, off, test, other, command_of, run_command, clear_cron_jobs,
}

-- The command clears the jobs.
abbrev pub clears : Command → Bool
clears open_valve = false
clears close_valve = false
clears save_ssid_pwd = false
clears reconnect = false
clears begin_ap = false
clears end_ap = false
clears clear_cron = true
clears off = false
clears test = false
clears other = false

-- The jobs that the code takes for due, in order.
abbrev pub due_jobs : Tm → List CronJob → List CronJob
due_jobs dt [] = []
due_jobs dt (job ∷ jobs) = if is_due job dt then job ∷ due_jobs dt jobs else due_jobs dt jobs

-- What a command does to the system, by its text; all other texts do nothing.
abbrev pub effect : Surroundings → Text → Text → Cron → Cron
effect e c params s =
    if text_eq c (codes "open")
    then record s { calls = ac_thermo_open ∷ s.calls }
    else if text_eq c (codes "close")
    then record s { calls = ac_thermo_close ∷ s.calls }
    else if text_eq c (codes "set_ssid_pwd")
    then set_ssid_pwd e params s
    else if text_eq c (codes "reconnect")
    then (if e.has_connection then record s { calls = mqtt_disconnect ∷ s.calls } else s)
    else if text_eq c (codes "start_ap")
    then start_ap s
    else if text_eq c (codes "stop_ap")
    then stop_ap s
    else if text_eq c (codes "clear_cron")
    then clear_cron_jobs s
    else if text_eq c (codes "off")
    then record s { calls = ac_off ∷ s.calls }
    else if text_eq c (codes "test")
    then record s { calls = ac_test ∷ s.calls }
    else s

-- The jobs act in order, up to and including the first `clear_cron`.
abbrev pub act : Surroundings → List CronJob → Cron → Cron
act e [] s = s
act e (job ∷ jobs) s =
    if text_eq job.command (codes "clear_cron")
    then effect e job.command job.command_params s
    else act e jobs (effect e job.command job.command_params s)

-- The list `chosen` has the jobs that are due, in order, and no other.
abbrev pub IsChosen : Tm → List CronJob → List CronJob → Type 0
IsChosen dt [] chosen = chosen ≡ []
IsChosen dt (job ∷ jobs) chosen =
    (IsDue job dt × ((later : List CronJob) × (chosen ≡ job ∷ later) × IsChosen dt jobs later))
    ⊎ ((IsDue job dt → ⊥) × IsChosen dt jobs chosen)

-- Runs the commands of jobs in order, up to and including the first that clears the jobs.
abbrev pub run_all : Surroundings → List CronJob → Cron → Cron
run_all e [] s = s
run_all e (job ∷ jobs) s =
    let c = command_of job.command in
    let t = run_command e c job.command_params s in if clears c then t else run_all e jobs t

pub due_jobs-IsChosen : (dt : Tm) (jobs : List CronJob) → IsChosen dt jobs (due_jobs dt jobs)
due_jobs-IsChosen dt [] = refl
due_jobs-IsChosen dt (job ∷ jobs) = elim (Bool-cases (is_due job dt)) [
  | inl due ↦
      inl ((is_due_iff job dt).0 due, (due_jobs dt jobs, rw due refl, due_jobs-IsChosen dt jobs))
  | inr stays ↦
      inr ((λ due. cc ((is_due_iff job dt).1 due, stays)), rw stays (due_jobs-IsChosen dt jobs))
]

-- A text is another text, or differs from it.
by_text : {P : Type 0} (c t : Text) → (c ≡ t → P) → (text_eq c t ≡ false → P) → P
by_text c t p q = elim (Bool-cases (text_eq c t)) [
  | inl same ↦ p ((text_eq_iff c t).0 same)
  | inr differs ↦ q differs
]

-- The command of a text has the effect of the text, and clears the jobs if it is `clear_cron`.
command-effect :
    (e : Surroundings) (c params : Text) (s : Cron)
    → (run_command e (command_of c) params s ≡ effect e c params s)
      × (clears (command_of c) ≡ text_eq c (codes "clear_cron"))
unfolding run_command command_of text_eq
command-effect e c params s =
    by_text c (codes "open") (λ same. rw same (refl, refl))
      (λ not_open.
        by_text c (codes "close") (λ same. rw same (refl, refl))
          (λ not_close.
            by_text c (codes "set_ssid_pwd") (λ same. rw same (refl, refl))
              (λ not_set_ssid_pwd.
                by_text c (codes "reconnect") (λ same. rw same (refl, refl))
                  (λ not_reconnect.
                    by_text c (codes "start_ap") (λ same. rw same (refl, refl))
                      (λ not_start_ap.
                        by_text c (codes "stop_ap") (λ same. rw same (refl, refl))
                          (λ not_stop_ap.
                            by_text c (codes "clear_cron") (λ same. rw same (refl, refl))
                              (λ not_clear_cron.
                                by_text c (codes "off") (λ same. rw same (refl, refl))
                                  (λ not_off.
                                    by_text c (codes "test") (λ same. rw same (refl, refl))
                                      (λ not_test.
                                        rw
                                          (
                                            not_open, not_close, not_set_ssid_pwd, not_reconnect,
                                            not_start_ap, not_stop_ap, not_clear_cron, not_off,
                                            not_test,
                                          )
                                          (refl, refl))))))))))

pub run_all-act :
    (e : Surroundings) (jobs : List CronJob) (s : Cron) → run_all e jobs s ≡ act e jobs s
run_all-act e [] s = refl
run_all-act e (job ∷ jobs) s =
    let same = command-effect e job.command job.command_params s in
    rw (same.0, same.1)
      (ap
        (λ t.
          if text_eq job.command (codes "clear_cron")
          then effect e job.command job.command_params s
          else t)
        (run_all-act e jobs (effect e job.command job.command_params s)))

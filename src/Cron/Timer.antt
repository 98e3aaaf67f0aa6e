-- ===== src/Cron/Timer.antt =====
-- user/cron/cron.c: the handler of the minute timer, `minute_timer_func`, with the commands of the jobs,
-- and `cron_init`, `clear_cron_jobs`, `cron_destroy`.
use meter_logger.Prelude.{
  ℕ, zero, suc, ◌+◌, ◌-◌, ◌*◌, ◌%◌, ◌^◌, Bool, true, false, if◌then◌else◌, ◌==◌, ltb, List, [], ◌∷◌,
  get_or, set,
}
use meter_logger.Prelude.Text.{Text, codes, text_eq}
use meter_logger.Sdk.{
  Timer, stopped, every, once, Opmode, station_mode, station_ap_mode, is_station, is_station_ap,
}
use meter_logger.Cron.Dst.{Tm, in_dst}
use meter_logger.Cron.Job.{CronJob, is_due}

-- The calls of other parts of the program.
pub data Call : Type 0 where
  ac_thermo_open ac_thermo_close ac_off ac_test : Call
  cfg_save_ssid_pwd : Text → Call
  mqtt_flash_error mqtt_disconnect : Call
  wifi_set_opmode_current : Opmode → Call
  wifi_softap_config wifi_softap_ip_config cfg_save cfg_save_defered : Call

-- The state that the code changes: `minute_timer`, `sec_drift`, `sys_cfg.cron_jobs`,
-- `sys_cfg.ap_enabled`, the opmode, and the calls so far, the last one first.
pub record Cron : Type 0 where
  pub timer : Timer
  pub sec_drift : ℕ
  pub n : ℕ
  pub cron_job_list : List CronJob
  pub ap_enabled : Bool
  pub opmode : Opmode
  pub calls : List Call

-- What the code reads elsewhere: whether an upgrade runs, the clock (0 before the first answer of NTP;
-- the handler reads it twice, here with one answer), `gmtime` on a `time_t` of 32 bits, whether
-- `cfg_save_ssid_pwd` succeeds, and whether `mqtt_client.pCon` is set.
pub record Surroundings : Type 0 where
  pub ota_in_progress : Bool
  pub get_unix_time : ℕ
  pub gmtime : ℕ → Tm
  pub ssid_pwd_saved : Text → Bool
  pub has_connection : Bool

abbrev pub empty_job : CronJob
empty_job = record {
  minute = [];
  hour = [];
  day_of_month = [];
  month = [];
  day_of_week = [];
  command = [];
  command_params = [];
}

-- One call of another part.
abbrev pub call : Call → Cron → Cron
call c s = record s { calls = c ∷ s.calls }

-- `wifi_set_opmode_current`, which sets what `wifi_get_opmode` answers.
abbrev pub set_opmode : Opmode → Cron → Cron
set_opmode mode s = record (call (wifi_set_opmode_current mode) s) { opmode = mode }

-- `clear_cron_jobs`: `memset` of `sizeof(cron_job_t)` bytes from the start of `cron_jobs` clears `n` and
-- all but the last byte of the first job, which is the end of its unused last string.
unfoldable pub clear_cron_jobs : Cron → Cron
clear_cron_jobs s =
    call cfg_save_defered (record s { n = 0; cron_job_list = set s.cron_job_list 0 empty_job })

unfoldable pub start_ap : Cron → Cron
start_ap s =
    if is_station_ap s.opmode
    then s
    else (let s =
          call wifi_softap_ip_config (call wifi_softap_config (set_opmode station_ap_mode s)) in
        if s.ap_enabled then s else call cfg_save (record s { ap_enabled = true }))

unfoldable pub stop_ap : Cron → Cron
stop_ap s =
    if is_station s.opmode
    then s
    else (let s = set_opmode station_mode s in
        if s.ap_enabled then call cfg_save (record s { ap_enabled = false }) else s)

unfoldable pub set_ssid_pwd : Surroundings → Text → Cron → Cron
set_ssid_pwd e params s =
    let s = call (cfg_save_ssid_pwd params) s in
    if e.ssid_pwd_saved params then s else call mqtt_flash_error s

-- The commands that the chain of `strncmp` tells apart, each in full length.
pub data Command : Type 0 where
  open_valve close_valve save_ssid_pwd reconnect begin_ap end_ap clear_cron off test other : Command

unfoldable pub command_of : Text → Command
command_of c =
    if text_eq c (codes "open")
    then open_valve
    else if text_eq c (codes "close")
    then close_valve
    else if text_eq c (codes "set_ssid_pwd")
    then save_ssid_pwd
    else if text_eq c (codes "reconnect")
    then reconnect
    else if text_eq c (codes "start_ap")
    then begin_ap
    else if text_eq c (codes "stop_ap")
    then end_ap
    else if text_eq c (codes "clear_cron")
    then clear_cron
    else if text_eq c (codes "off")
    then off
    else if text_eq c (codes "test")
    then test
    else other

-- What the branch of a command does.
unfoldable pub run_command : Surroundings → Command → Text → Cron → Cron
run_command e open_valve params s = call ac_thermo_open s
run_command e close_valve params s = call ac_thermo_close s
run_command e save_ssid_pwd params s = set_ssid_pwd e params s
run_command e reconnect params s = if e.has_connection then call mqtt_disconnect s else s
run_command e begin_ap params s = start_ap s
run_command e end_ap params s = stop_ap s
run_command e clear_cron params s = clear_cron_jobs s
run_command e off params s = call ac_off s
run_command e test params s = call ac_test s
run_command e other params s = s

-- One pass of the loop over the jobs.
unfoldable pub check_job : Surroundings → Tm → ℕ → Cron → Cron
check_job e dt i s =
    let job = get_or s.cron_job_list i empty_job in
    if is_due job dt then run_command e (command_of job.command) job.command_params s else s

-- The loop over the jobs from `i` on: the bound `n` is read again before each pass.
unfoldable pub check_jobs : ℕ → Surroundings → Tm → ℕ → Cron → Cron
check_jobs zero e dt i s = s
check_jobs (suc fuel) e dt i s = elim (ltb i s.n) [
  | true ↦ check_jobs fuel e dt (suc i) (check_job e dt i s)
  | false ↦ s
]

-- The synchronization of the timer to the full minute.
unfoldable pub sync : Tm → Cron → Cron
sync dt s =
    if dt.tm_sec == 0
    then (if s.sec_drift == 0 then s else record s { timer = every 60000; sec_drift = 0 })
    else record s { timer = once ((60 - dt.tm_sec) * 1000); sec_drift = 60 - dt.tm_sec }

-- The local time that the code reckons with.
unfoldable pub local_time : Surroundings → Tm
local_time e =
    let t = (e.get_unix_time + 1 * 60 * 60) % 2 ^ 32 in
    let dt = e.gmtime t in if in_dst dt then e.gmtime ((t + 1 * 60 * 60) % 2 ^ 32) else dt

unfoldable pub minute_timer_func : Surroundings → Cron → Cron
minute_timer_func e s =
    if e.ota_in_progress
    then s
    else if e.get_unix_time == 0
    then s
    else (let dt = local_time e in check_jobs s.n e dt 0 (sync dt s))

unfoldable pub cron_init : Cron → Cron
cron_init s = record s { timer = every 60000 }

unfoldable pub cron_destroy : Cron → Cron
cron_destroy s = record s { timer = stopped }

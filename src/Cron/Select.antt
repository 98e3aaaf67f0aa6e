-- ===== src/Cron/Select.antt =====
-- What the test of a job in user/cron/cron.c selects.
use meter_logger.Prelude.{ℕ, ◌+◌, ◌≤◌, ◌≡◌, ◌⊎◌, ◌↔◌, ◌∷◌, [], true, false, Bool, ◌==◌, arith}
use meter_logger.Prelude.Text.{Text, Signed, text_eq_iff, atoi}
use meter_logger.Cron.Dst.{Tm}
use meter_logger.Cron.Job.{CronJob, field_counts, is_value, int_mod, is_due}

-- The number n is the value v.
abbrev pub Is : ℕ → Signed → Type 0
Is v n = (n.magnitude ≡ v) × ((n.negative ≡ false) ⊎ (v ≡ 0))

-- A field selects by the asterisk, by being empty, or by its number.
abbrev pub Selects : Text → Type 0 → Type 0
Selects field same = (field ≡ b'*' ∷ []) ⊎ (field ≡ []) ⊎ same

is_value_iff : (v : ℕ) (n : Signed) → (is_value v n ≡ true) ↔ Is v n
unfolding is_value
is_value_iff v n = ground arith

field_counts_iff :
    (field : Text) (same : Bool)
    → (field_counts field same ≤ 1) × ((field_counts field same ≡ 1) ↔ Selects field (same ≡ true))
unfolding field_counts
field_counts_iff field same = ground (arith, text_eq_iff field (b'*' ∷ []), text_eq_iff field [])

-- A counter that is 1 when P holds, and 0 otherwise.
abbrev Counts : ℕ → Type 0 → Type 0
Counts n P = (n ≤ 1) × ((n ≡ 1) ↔ P)

field_selects :
    (field : Text) (v : ℕ) (n : Signed)
    → Counts (field_counts field (is_value v n)) (Selects field (Is v n))
field_selects field v n = ground (arith, field_counts_iff field (is_value v n), is_value_iff v n)

-- Five counters reach 5 when each is 1.
five :
    {a b c d e : ℕ} {A B C D E : Type 0}
    → Counts a A
    → Counts b B
    → Counts c C
    → Counts d D
    → Counts e E
    → ((a + b + c + d + e == 5) ≡ true) ↔ (A × B × C × D × E)
five p q r s t = ground arith

-- The hour, the minute, the day of the month, the month (January is 1) and the weekday (Sunday is 0 or 7) of a job
-- all select the time.
abbrev pub IsDue : CronJob → Tm → Type 0
IsDue job dt =
    Selects job.hour (Is dt.tm_hour (atoi job.hour))
    × Selects job.minute (Is dt.tm_min (atoi job.minute))
    × Selects job.day_of_month (Is dt.tm_mday (atoi job.day_of_month))
    × Selects job.month (Is (dt.tm_mon + 1) (atoi job.month))
    × Selects job.day_of_week (Is dt.tm_wday (int_mod (atoi job.day_of_week) 7))

-- A job is due exactly when its fields all select the time.
pub is_due_iff : (job : CronJob) (dt : Tm) → (is_due job dt ≡ true) ↔ IsDue job dt
unfolding is_due
is_due_iff job dt =
    let h = atoi job.hour in
    let m = atoi job.minute in
    let d = atoi job.day_of_month in
    let n = atoi job.month in
    let w = int_mod (atoi job.day_of_week) 7 in
    five (field_selects job.hour dt.tm_hour h) (field_selects job.minute dt.tm_min m)
      (field_selects job.day_of_month dt.tm_mday d) (field_selects job.month (dt.tm_mon + 1) n)
      (field_selects job.day_of_week dt.tm_wday w)

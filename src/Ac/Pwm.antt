-- ===== src/Ac/Pwm.antt =====
-- The pulse width of the output of user/ac/ac_out.c.
use meter_logger.Prelude.{
  ℕ, zero, suc, ◌+◌, ◌-◌, ◌*◌, ◌%◌, ◌^◌, ◌<◌, ◌≡◌, refl, ap, subst, Bool, false, not, arith,
}
use meter_logger.Prelude.{lt→ltb}
use meter_logger.Sdk.{every}
use meter_logger.Ac.{
  Build, PwmState, pwm_on, pwm_off, Ac, ac_out_off_timer_func, pwm_turn, ac_pwm_timer_func, ac_off,
  ac_thermo_pwm,
}

-- So many firings of the timer for the pulse width.
abbrev pub firings : Build → ℕ → Ac → Ac
firings b zero s = s
firings b (suc n) s = ac_pwm_timer_func b (firings b n s)

abbrev pub turned : PwmState → PwmState
turned pwm_on = pwm_off
turned pwm_off = pwm_on

abbrev pub turned_often : ℕ → PwmState → PwmState
turned_often zero state = state
turned_often (suc n) state = turned (turned_often n state)

-- The time of a part of the period in ms.
abbrev pub part : ℕ → PwmState → ℕ
part duty pwm_on = duty * 10
part duty pwm_off = 10000 - duty * 10

-- The level that drives the valve, in the part of the period that is on.
abbrev pub level : Build → PwmState → Bool
level b pwm_on = not b.thermo_no
level b pwm_off = b.thermo_no

-- The part of the period has begun, and the timer runs for its time.
pub record IsPart (b : Build) (duty : ℕ) (state : PwmState) (s : Ac) : Type 0 where
  pub part_state : s.ac_pwm_state ≡ state
  pub part_duty : s.ac_pwm_duty_cycle ≡ duty
  pub part_level : s.gpio14 ≡ level b state
  pub part_timer : s.ac_pwm_timer ≡ every (part duty state)

turn-IsPart :
    (b : Build) (state : PwmState) (s : Ac)
    → 0 < s.ac_pwm_duty_cycle
    → s.ac_pwm_duty_cycle < 1000
    → IsPart b s.ac_pwm_duty_cycle (turned state) (pwm_turn state b s)
unfolding pwm_turn
turn-IsPart b pwm_off s p q =
    let some_time : s.ac_pwm_duty_cycle * 10 % 2 ^ 32 ≡ s.ac_pwm_duty_cycle * 10 =
      omega (arith, q) in
    rw (lt→ltb 0 s.ac_pwm_duty_cycle p) record {
      part_state = refl;
      part_duty = refl;
      part_level = refl;
      part_timer = ap every some_time;
    }
turn-IsPart b pwm_on s p q =
    let some_time : (1000 + 2 ^ 32 - s.ac_pwm_duty_cycle) % 2 ^ 32 * 10 % 2 ^ 32
        ≡ 10000 - s.ac_pwm_duty_cycle * 10 =
      omega (arith, p, q) in
    rw (lt→ltb s.ac_pwm_duty_cycle 1000 q) record {
      part_state = refl;
      part_duty = refl;
      part_level = refl;
      part_timer = ap every some_time;
    }

firing-IsPart :
    (b : Build) (duty : ℕ) (state : PwmState) (s : Ac)
    → IsPart b duty state s
    → 0 < duty
    → duty < 1000
    → IsPart b duty (turned state) (ac_pwm_timer_func b s)
unfolding ac_pwm_timer_func
firing-IsPart b duty state s h p q =
    let same = h.part_duty in
    let turn = turn-IsPart b s.ac_pwm_state s (omega (arith, same, p)) (omega (arith, same, q)) in
    let timed = subst (λ d. IsPart b d (turned s.ac_pwm_state) (ac_pwm_timer_func b s)) same turn in
    subst (λ t. IsPart b duty (turned t) (ac_pwm_timer_func b s)) h.part_state timed

firings-IsPart :
    (b : Build) (n : ℕ) (s : Ac)
    → 0 < s.ac_pwm_duty_cycle
    → s.ac_pwm_duty_cycle < 1000
    → IsPart b s.ac_pwm_duty_cycle (turned_often (suc n) s.ac_pwm_state) (firings b (suc n) s)
unfolding ac_pwm_timer_func
firings-IsPart b zero s p q = turn-IsPart b s.ac_pwm_state s p q
firings-IsPart b (suc n) s p q =
    firing-IsPart b s.ac_pwm_duty_cycle (turned_often (suc n) s.ac_pwm_state) (firings b (suc n) s)
      (firings-IsPart b n s p q) p q

-- Once a pulse width above 0 and below 1000 is asked for, each firing of the timer begins the other part of
-- the period, drives or releases the valve, and arms the timer for the time of this part, where the two times
-- make 10 s.
pub pwm-IsPart :
    (b : Build) (n duty : ℕ) (s : Ac)
    → 0 < duty
    → duty < 1000
    → IsPart b duty
        (turned_often (suc n) s.ac_pwm_state)
        (firings b (suc n) (ac_thermo_pwm b duty s))
      × (part duty pwm_on + part duty pwm_off ≡ 10000)
unfolding ac_thermo_pwm
pwm-IsPart b n duty s p q = (firings-IsPart b n (ac_thermo_pwm b duty s) p q, omega (arith, q))

-- After the outputs are turned off, with the timer that is armed for this fired, the timer for the pulse width
-- runs on, and when it begins the next part that is on, the valve is driven again.
ac_off-keeps_pwm :
    (b : Build) (s : Ac)
    → s.ac_pwm_state ≡ pwm_off
    → 0 < s.ac_pwm_duty_cycle
    → let off = ac_out_off_timer_func b (ac_off s) in
      (off.gpio14 ≡ false)
      × (off.ac_pwm_timer ≡ s.ac_pwm_timer)
      × ((ac_pwm_timer_func b off).gpio14 ≡ level b pwm_on)
unfolding ac_out_off_timer_func ac_off ac_pwm_timer_func pwm_turn
ac_off-keeps_pwm b s e p = (refl, refl, rw (e, lt→ltb 0 s.ac_pwm_duty_cycle p) refl)

-- ===== src/Ac.antt =====
-- user/ac/ac_out.c: the outputs for a valve or a pump, in all its builds, without the output for debugging.
use meter_logger.Prelude.{
  ℕ, ◌+◌, ◌-◌, ◌*◌, ◌%◌, ◌^◌, ◌==◌, Bool, true, false, not, List, [], ◌∷◌, if◌then◌else◌, ltb,
}
use meter_logger.Sdk.{Timer, stopped, once, every}
pub mod Pwm
mod Tests

-- `LED_ON_AC`, `THERMO_NO` and `THERMO_ON_AC_2`
pub record Build : Type 0 where
  pub led_on_ac : Bool
  pub thermo_no : Bool
  pub thermo_on_ac_2 : Bool

pub data PwmState : Type 0 where
  pwm_on pwm_off : PwmState

-- The calls of the LED and of the configuration.
pub data AcCall : Type 0 where
  led_on led_off led_pattern_a led_pattern_b led_stop_pattern cfg_save_defered : AcCall

-- The variables of the file, the levels of GPIO14 and GPIO15, `sys_cfg.ac_thermo_state`, and the calls so far,
-- the last one first.
pub record Ac : Type 0 where
  pub ac_test_timer : Timer
  pub ac_out_off_timer : Timer
  pub ac_pwm_timer : Timer
  pub ac_pwm_duty_cycle : ℕ
  pub ac_pwm_state : PwmState
  pub gpio14 : Bool
  pub gpio15 : Bool
  pub ac_thermo_state : ℕ
  pub calls : List AcCall

-- A call in the builds with `LED_ON_AC`.
abbrev pub led : Build → AcCall → Ac → Ac
led b c s = record s { calls = if b.led_on_ac then c ∷ s.calls else s.calls }

abbrev pub second_pin : Build → Bool → Bool → Bool
second_pin b old new = if b.thermo_on_ac_2 then new else old

unfoldable pub ac_test_timer_func : Build → Ac → Ac
ac_test_timer_func b s =
    let high = led b led_pattern_b (record s { gpio14 = false }) in
    let low = led b led_pattern_a (record s { gpio14 = true }) in if s.gpio14 then high else low

unfoldable pub ac_out_off_timer_func : Build → Ac → Ac
ac_out_off_timer_func b s = led b led_off (record s {
  gpio14 = false;
  gpio15 = second_pin b s.gpio15 false;
  calls = led_stop_pattern ∷ s.calls;
})

-- The times are computed on 32 bits.
unfoldable pub pwm_turn : PwmState → Build → Ac → Ac
pwm_turn pwm_off b s =
    let driven = led b led_on (record s { gpio14 = not b.thermo_no }) in
    let next = if ltb 0 s.ac_pwm_duty_cycle then driven else s in
    record next { ac_pwm_state = pwm_on; ac_pwm_timer = every (s.ac_pwm_duty_cycle * 10 % 2 ^ 32) }
pwm_turn pwm_on b s =
    let released = led b led_off (record s { gpio14 = b.thermo_no }) in
    let next = if ltb s.ac_pwm_duty_cycle 1000 then released else s in
    record next {
      ac_pwm_state = pwm_off;
      ac_pwm_timer = every ((1000 + 2 ^ 32 - s.ac_pwm_duty_cycle) % 2 ^ 32 * 10 % 2 ^ 32);
    }

unfoldable pub ac_pwm_timer_func : Build → Ac → Ac
unfolding pwm_turn
ac_pwm_timer_func b s = pwm_turn s.ac_pwm_state b s

-- `AC_TEST_TIMER_INTERVAL`
abbrev pub ac_test_timer_interval : ℕ
ac_test_timer_interval = 12000

unfoldable pub ac_test : Build → Ac → Ac
ac_test b s =
    let s = led b led_pattern_a s in
    record s {
      gpio14 = true;
      gpio15 = second_pin b s.gpio15 false;
      ac_test_timer = every ac_test_timer_interval;
    }

unfoldable pub ac_off : Ac → Ac
ac_off s = record s { ac_test_timer = stopped; ac_out_off_timer = once 0 }

unfoldable pub ac_motor_valve_open : Build → Ac → Ac
unfolding ac_off
ac_motor_valve_open b s = record (led b led_pattern_a (ac_off s)) {
  gpio14 = true;
  ac_out_off_timer = once 60000;
}

unfoldable pub ac_motor_valve_close : Build → Ac → Ac
unfolding ac_off
ac_motor_valve_close b s = record (led b led_pattern_b (ac_off s)) { ac_out_off_timer = once 60000 }

-- The state is saved if it has changed.
unfoldable pub save_thermo : ℕ → Bool → Ac → Ac
save_thermo state changed s =
    let saved : Ac = record s { ac_thermo_state = state; calls = cfg_save_defered ∷ s.calls } in
    if changed then saved else s

unfoldable pub ac_thermo_open : Build → Ac → Ac
unfolding save_thermo
ac_thermo_open b s =
    let level = not b.thermo_no in
    let s = led b led_pattern_b s in
    save_thermo 1 (s.ac_thermo_state == 0)
      (record s { gpio14 = level; gpio15 = second_pin b s.gpio15 level })

unfoldable pub ac_thermo_close : Build → Ac → Ac
unfolding save_thermo
ac_thermo_close b s =
    let level = b.thermo_no in
    let s = led b led_pattern_a s in
    save_thermo 0 (not (s.ac_thermo_state == 0))
      (record s { gpio14 = level; gpio15 = second_pin b s.gpio15 level })

unfoldable pub ac_thermo_pwm : Build → ℕ → Ac → Ac
ac_thermo_pwm b duty_cycle s = record (led b led_stop_pattern s) {
  ac_pwm_duty_cycle = duty_cycle;
  ac_pwm_timer = once 0;
}

-- ===== src/Ac/Tests.antt =====
-- The outputs of user/ac/ac_out.c at a concrete state.
use meter_logger.Prelude.{◌+◌, ◌≡◌, refl, true, false, [], arith}
use meter_logger.Sdk.{stopped, once, every}
use meter_logger.Ac.{Build, pwm_on, pwm_off, Ac, ac_motor_valve_open, ac_thermo_pwm}
use meter_logger.Ac.Pwm.{IsPart, turned_often, firings, part, pwm-IsPart}

abbrev build : Build
build = record { led_on_ac = true; thermo_no = false; thermo_on_ac_2 = false }

-- The valve is driven for 3 s of 10 s, and the part that is off has begun.
abbrev heating : Ac
heating = record {
  ac_test_timer = stopped;
  ac_out_off_timer = stopped;
  ac_pwm_timer = every 7000;
  ac_pwm_duty_cycle = 300;
  ac_pwm_state = pwm_off;
  gpio14 = false;
  gpio15 = false;
  ac_thermo_state = 0;
  calls = [];
}

pwm-IsPart_example :
    IsPart build 250 (turned_often 3 pwm_off) (firings build 3 (ac_thermo_pwm build 250 heating))
    × (part 250 pwm_on + part 250 pwm_off ≡ 10000)
pwm-IsPart_example = pwm-IsPart build 2 250 heating (omega arith) (omega arith)

-- The valve is opened for a minute.
open_valve : (ac_motor_valve_open build heating).ac_out_off_timer ≡ once 60000
unfolding ac_motor_valve_open
open_valve = refl

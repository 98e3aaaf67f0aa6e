-- ===== src/Led/Tests.antt =====
-- Patterns of user/led.c from the start.
use meter_logger.Prelude.{refl, true, false, List, [], ◌∷◌, arith}
use meter_logger.Sdk.{stopped}
use meter_logger.Led.{
  double_blink, Led, led_double_blink_timer_func, sub_step, double_steps,
  led_triple_blink_timer_func, led_init, led_pattern_c, led_pattern_d, led_stop_pattern, LedEvent,
  init, pattern_c, pattern_d, stop_pattern, double_timer, triple_timer, sub_timer, led_step,
  led_run,
}
use meter_logger.Led.Patterns.{EndsSoon, run-EndsSoon}

-- All variables are as the file initialises them.
abbrev blank : Led
blank = record {
  led_blinker_timer = stopped;
  led_single_blink_off_timer = stopped;
  led_double_blink_timer = stopped;
  led_triple_blink_timer = stopped;
  led_sub_pattern_timer = stopped;
  led_sub_pattern_timer_func = double_blink;
  led_disabled = true;
  led_blinker_timer_running = false;
  led_double_blinker_timer_running = false;
  led_triple_blinker_timer_running = false;
  led_sub_pattern_state = 0;
  gpio2 = true;
}

-- Two steps of the double pattern, after the triple one was stopped.
abbrev events : List LedEvent
events = init ∷ pattern_d ∷ triple_timer ∷ stop_pattern ∷ pattern_c ∷ double_timer ∷ sub_timer ∷ []

run-EndsSoon_example : EndsSoon (led_run events blank)
unfolding led_step led_init led_pattern_c led_pattern_d led_stop_pattern led_double_blink_timer_func
    led_triple_blink_timer_func double_steps sub_step
run-EndsSoon_example =
    run-EndsSoon events blank (led_run events blank) (omega arith) refl refl refl refl

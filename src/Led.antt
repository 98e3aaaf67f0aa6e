-- ===== src/Led.antt =====
-- user/led.c: the patterns of the status LED, in the build without DISABLE_LED.
use meter_logger.Prelude.{
  ℕ, zero, suc, ◌+◌, Bool, true, false, not, ◌||◌, List, [], ◌∷◌, if◌then◌else◌, ltb, ◌==◌,
}
use meter_logger.Sdk.{Timer, stopped, once, every, fire}
pub mod Patterns
mod Tests

-- The handler that was set last for `led_sub_pattern_timer`.
pub data SubPattern : Type 0 where
  double_blink triple_blink : SubPattern

-- The variables of the file, and the level of GPIO2, which is low when the LED is lit.
pub record Led : Type 0 where
  pub led_blinker_timer : Timer
  pub led_single_blink_off_timer : Timer
  pub led_double_blink_timer : Timer
  pub led_triple_blink_timer : Timer
  pub led_sub_pattern_timer : Timer
  pub led_sub_pattern_timer_func : SubPattern
  pub led_disabled : Bool
  pub led_blinker_timer_running : Bool
  pub led_double_blinker_timer_running : Bool
  pub led_triple_blinker_timer_running : Bool
  pub led_sub_pattern_state : ℕ
  pub gpio2 : Bool

abbrev pub led_on : Led → Led
led_on s = record s { gpio2 = false }

abbrev pub led_off : Led → Led
led_off s = record s { gpio2 = true }

unfoldable pub led_blinker_timer_func : Led → Led
led_blinker_timer_func s =
    if not s.led_blinker_timer_running || s.led_disabled
    then record s { led_blinker_timer = stopped }
    else record s { gpio2 = not s.gpio2 }

abbrev pub led_single_blink_off_timer_func : Led → Led
led_single_blink_off_timer_func s = led_off s

-- A step of a pattern that is followed by another one.
unfoldable pub sub_step : SubPattern → Bool → Led → Led
sub_step p level s = record s {
  gpio2 = level;
  led_sub_pattern_state = s.led_sub_pattern_state + 1;
  led_sub_pattern_timer = once 100;
  led_sub_pattern_timer_func = p;
}

-- The last step of a pattern.
unfoldable pub last_step : Led → Led
last_step s = record s { gpio2 = true; led_sub_pattern_timer = stopped; led_sub_pattern_state = 0 }

unfoldable pub double_steps : ℕ → Led → Led
unfolding sub_step last_step
double_steps zero s = sub_step double_blink false s
double_steps (suc zero) s = sub_step double_blink true s
double_steps (suc (suc zero)) s = sub_step double_blink false s
double_steps (suc (suc (suc zero))) s = last_step s
double_steps (suc (suc (suc (suc n)))) s = s

unfoldable pub led_double_blink_timer_func : Led → Led
unfolding double_steps
led_double_blink_timer_func s =
    if not s.led_double_blinker_timer_running || s.led_disabled
    then record s { led_double_blink_timer = stopped }
    else double_steps s.led_sub_pattern_state (led_off s)

unfoldable pub triple_steps : ℕ → Led → Led
unfolding sub_step last_step
triple_steps zero s = sub_step triple_blink false s
triple_steps (suc zero) s = sub_step triple_blink true s
triple_steps (suc (suc zero)) s = sub_step triple_blink false s
triple_steps (suc (suc (suc zero))) s = sub_step triple_blink true s
triple_steps (suc (suc (suc (suc zero)))) s = sub_step triple_blink false s
triple_steps (suc (suc (suc (suc (suc zero))))) s = last_step s
triple_steps (suc (suc (suc (suc (suc (suc n)))))) s = s

unfoldable pub led_triple_blink_timer_func : Led → Led
unfolding triple_steps
led_triple_blink_timer_func s =
    if not s.led_triple_blinker_timer_running || s.led_disabled
    then record s { led_triple_blink_timer = stopped }
    else triple_steps s.led_sub_pattern_state (led_off s)

unfoldable pub led_init : Led → Led
led_init s = record s { gpio2 = true; led_disabled = false }

-- `led_blink` and `led_blink_short`, by the time in ms.
unfoldable pub blink_for : ℕ → Led → Led
blink_for ms s =
    let lit : Led = record s { gpio2 = false; led_single_blink_off_timer = once ms } in
    if s.led_disabled then s else lit

abbrev pub led_blink : Led → Led
led_blink s = blink_for 1000 s

abbrev pub led_blink_short : Led → Led
led_blink_short s = blink_for 100 s

-- `led_pattern_a` and `led_pattern_b`, by the time in ms.
unfoldable pub pattern_of : ℕ → Led → Led
pattern_of ms s =
    let running : Led = record s {
      led_blinker_timer_running = true;
      led_blinker_timer = every ms;
    } in
    if s.led_disabled then s else running

abbrev pub led_pattern_a : Led → Led
led_pattern_a s = pattern_of 1000 s

abbrev pub led_pattern_b : Led → Led
led_pattern_b s = pattern_of 200 s

unfoldable pub led_pattern_c : Led → Led
led_pattern_c s =
    let running : Led = record s {
      led_double_blinker_timer_running = true;
      led_double_blink_timer = every 3000;
    } in
    if s.led_disabled then s else running

unfoldable pub led_pattern_d : Led → Led
led_pattern_d s =
    let running : Led = record s {
      led_triple_blinker_timer_running = true;
      led_triple_blink_timer = every 2000;
    } in
    if s.led_disabled then s else running

unfoldable pub led_stop_pattern : Led → Led
led_stop_pattern s = record s {
  led_blinker_timer_running = false;
  led_double_blinker_timer_running = false;
  led_triple_blinker_timer_running = false;
  led_sub_pattern_state = 0;
  gpio2 = true;
}

unfoldable pub led_destroy : Led → Led
unfolding led_stop_pattern
led_destroy s = led_stop_pattern (record s { led_disabled = true })

-- A call of the program, or a timer that fires.
pub data LedEvent : Type 0 where
  init blink blink_short pattern_a pattern_b pattern_c pattern_d stop_pattern destroy : LedEvent
  blinker_timer blink_off_timer double_timer triple_timer sub_timer : LedEvent

abbrev pub sub_pattern_func : SubPattern → Led → Led
sub_pattern_func double_blink s = led_double_blink_timer_func s
sub_pattern_func triple_blink s = led_triple_blink_timer_func s

-- A timer fires only if it is armed.
abbrev pub fired : Timer → (Led → Led) → Led → Led
fired stopped f s = s
fired (once ms) f s = f s
fired (every ms) f s = f s

unfoldable pub led_step : LedEvent → Led → Led
led_step init s = led_init s
led_step blink s = led_blink s
led_step blink_short s = led_blink_short s
led_step pattern_a s = led_pattern_a s
led_step pattern_b s = led_pattern_b s
led_step pattern_c s = led_pattern_c s
led_step pattern_d s = led_pattern_d s
led_step stop_pattern s = led_stop_pattern s
led_step destroy s = led_destroy s
led_step blinker_timer s = fired s.led_blinker_timer led_blinker_timer_func s
led_step blink_off_timer s =
    fired s.led_single_blink_off_timer led_single_blink_off_timer_func
      (record s { led_single_blink_off_timer = fire s.led_single_blink_off_timer })
led_step double_timer s = fired s.led_double_blink_timer led_double_blink_timer_func s
led_step triple_timer s = fired s.led_triple_blink_timer led_triple_blink_timer_func s
led_step sub_timer s =
    fired s.led_sub_pattern_timer (sub_pattern_func s.led_sub_pattern_timer_func)
      (record s { led_sub_pattern_timer = fire s.led_sub_pattern_timer })

abbrev pub led_run : List LedEvent → Led → Led
led_run [] s = s
led_run (e ∷ es) s = led_run es (led_step e s)

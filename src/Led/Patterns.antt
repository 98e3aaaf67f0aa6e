-- ===== src/Led/Patterns.antt =====
-- The patterns of user/led.c always come to their end.
use meter_logger.Prelude.{
  ℕ, zero, suc, ◌+◌, ◌-◌, ◌≤◌, ◌≡◌, refl, subst, Bool, true, false, not, ◌||◌, Bool-cases, inl, inr,
  List, [], ◌∷◌, arith,
}
use meter_logger.Sdk.{Timer, stopped, once, every}
use meter_logger.Led.{
  SubPattern, double_blink, triple_blink, Led, led_blinker_timer_func, sub_step, last_step,
  double_steps, led_double_blink_timer_func, triple_steps, led_triple_blink_timer_func,
  led_single_blink_off_timer_func, led_init, blink_for, pattern_of, led_pattern_c, led_pattern_d,
  led_stop_pattern, led_destroy, LedEvent, init, blink, blink_short, pattern_a, pattern_b,
  pattern_c, pattern_d, stop_pattern, destroy, blinker_timer, blink_off_timer, double_timer,
  triple_timer, sub_timer, sub_pattern_func, fired, led_step, led_run,
}

-- The number of the last step of the patterns that run.
abbrev pub last_of : Bool → ℕ
last_of true = 5
last_of false = 3

-- The state is a step of a pattern that may run.
abbrev pub IsInPattern : Led → Type 0
IsInPattern s = s.led_sub_pattern_state ≤ last_of s.led_triple_blinker_timer_running

last_of-least : (b : Bool) → 3 ≤ last_of b
last_of-least true = omega arith
last_of-least false = omega arith

double_steps-IsInPattern :
    (n : ℕ) (s : Led) → s.led_sub_pattern_state ≡ n → IsInPattern s → IsInPattern (double_steps n s)
unfolding double_steps sub_step last_step
double_steps-IsInPattern zero s e h =
    omega (arith, e, last_of-least s.led_triple_blinker_timer_running)
double_steps-IsInPattern (suc zero) s e h =
    omega (arith, e, last_of-least s.led_triple_blinker_timer_running)
double_steps-IsInPattern (suc (suc zero)) s e h =
    omega (arith, e, last_of-least s.led_triple_blinker_timer_running)
double_steps-IsInPattern (suc (suc (suc zero))) s e h = omega arith
double_steps-IsInPattern (suc (suc (suc (suc n)))) s e h = h

triple_steps-IsInPattern :
    (n : ℕ) (s : Led)
    → s.led_sub_pattern_state ≡ n
    → s.led_triple_blinker_timer_running ≡ true
    → IsInPattern s
    → IsInPattern (triple_steps n s)
unfolding triple_steps sub_step last_step
triple_steps-IsInPattern zero s e t h = rw t (omega (arith, e))
triple_steps-IsInPattern (suc zero) s e t h = rw t (omega (arith, e))
triple_steps-IsInPattern (suc (suc zero)) s e t h = rw t (omega (arith, e))
triple_steps-IsInPattern (suc (suc (suc zero))) s e t h = rw t (omega (arith, e))
triple_steps-IsInPattern (suc (suc (suc (suc zero)))) s e t h = rw t (omega (arith, e))
triple_steps-IsInPattern (suc (suc (suc (suc (suc zero))))) s e t h = omega arith
triple_steps-IsInPattern (suc (suc (suc (suc (suc (suc n)))))) s e t h = h

double-IsInPattern : (s : Led) → IsInPattern s → IsInPattern (led_double_blink_timer_func s)
unfolding led_double_blink_timer_func
double-IsInPattern s h =
    elim (Bool-cases (not s.led_double_blinker_timer_running || s.led_disabled)) [
      | inl e ↦ rw e h
      | inr e ↦ rw e (double_steps-IsInPattern s.led_sub_pattern_state _ refl h)
    ]

triple-IsInPattern : (s : Led) → IsInPattern s → IsInPattern (led_triple_blink_timer_func s)
unfolding led_triple_blink_timer_func
triple-IsInPattern s h =
    elim (Bool-cases (not s.led_triple_blinker_timer_running || s.led_disabled)) [
      | inl e ↦ rw e h
      | inr e ↦
          (let running : s.led_triple_blinker_timer_running ≡ true = ground (arith, e) in
            rw e (triple_steps-IsInPattern s.led_sub_pattern_state _ refl running h))
    ]

-- A timer that keeps the state in the patterns keeps it when it fires, if it fires.
fired-IsInPattern :
    (t : Timer) (f : Led → Led) (s : Led)
    → IsInPattern s
    → IsInPattern (f s)
    → IsInPattern (fired t f s)
fired-IsInPattern stopped f s h k = h
fired-IsInPattern (once ms) f s h k = k
fired-IsInPattern (every ms) f s h k = k

sub_pattern_func-IsInPattern :
    (p : SubPattern) (s : Led) → IsInPattern s → IsInPattern (sub_pattern_func p s)
sub_pattern_func-IsInPattern double_blink s h = double-IsInPattern s h
sub_pattern_func-IsInPattern triple_blink s h = triple-IsInPattern s h

step-IsInPattern : (e : LedEvent) (s : Led) → IsInPattern s → IsInPattern (led_step e s)
unfolding led_step led_init blink_for pattern_of led_pattern_c led_pattern_d led_stop_pattern
    led_destroy led_blinker_timer_func
step-IsInPattern init s h = h
step-IsInPattern blink s h = ground (arith, h)
step-IsInPattern blink_short s h = ground (arith, h)
step-IsInPattern pattern_a s h = ground (arith, h)
step-IsInPattern pattern_b s h = ground (arith, h)
step-IsInPattern pattern_c s h = ground (arith, h)
step-IsInPattern pattern_d s h = ground (arith, h)
step-IsInPattern stop_pattern s h = omega arith
step-IsInPattern destroy s h = omega arith
step-IsInPattern blinker_timer s h =
    fired-IsInPattern s.led_blinker_timer led_blinker_timer_func s h (ground (arith, h))
step-IsInPattern blink_off_timer s h =
    fired-IsInPattern s.led_single_blink_off_timer led_single_blink_off_timer_func _ h h
step-IsInPattern double_timer s h =
    fired-IsInPattern s.led_double_blink_timer led_double_blink_timer_func s h
      (double-IsInPattern s h)
step-IsInPattern triple_timer s h =
    fired-IsInPattern s.led_triple_blink_timer led_triple_blink_timer_func s h
      (triple-IsInPattern s h)
step-IsInPattern sub_timer s h =
    fired-IsInPattern s.led_sub_pattern_timer (sub_pattern_func s.led_sub_pattern_timer_func) _ h
      (sub_pattern_func-IsInPattern s.led_sub_pattern_timer_func _ h)

run-IsInPattern : (es : List LedEvent) (s : Led) → IsInPattern s → IsInPattern (led_run es s)
run-IsInPattern [] s h = h
run-IsInPattern (e ∷ es) s h = run-IsInPattern es (led_step e s) (step-IsInPattern e s h)

-- So many firings of the timers with the double pattern.
abbrev pub blinks : ℕ → Led → Led
blinks zero s = s
blinks (suc n) s = blinks n (led_double_blink_timer_func s)

-- The pattern is over: the LED is off and no further step is timed.
pub record IsOver (s : Led) : Type 0 where
  pub over_state : s.led_sub_pattern_state ≡ 0
  pub over_off : s.gpio2 ≡ true
  pub over_timer : s.led_sub_pattern_timer ≡ stopped

pub record EndsSoon (s : Led) : Type 0 where
  pub steps : ℕ
  pub steps_bound : steps ≤ 4
  pub over : IsOver (blinks steps s)

next_blink :
    (n : ℕ) (s : Led)
    → s.led_sub_pattern_state ≡ n
    → n ≤ 2
    → s.led_disabled ≡ false
    → s.led_double_blinker_timer_running ≡ true
    → let q = led_double_blink_timer_func s in
      (q.led_sub_pattern_state ≡ suc n)
      × (q.led_disabled ≡ false)
      × (q.led_double_blinker_timer_running ≡ true)
unfolding led_double_blink_timer_func double_steps sub_step
next_blink zero s e h d r = rw (r, d, e) (refl, refl, refl)
next_blink (suc zero) s e h d r = rw (r, d, e) (refl, refl, refl)
next_blink (suc (suc zero)) s e h d r = rw (r, d, e) (refl, refl, refl)
next_blink (suc (suc (suc n))) s e h d r = absurd (omega (arith, h))

blinks-IsOver :
    (k n : ℕ) (s : Led)
    → s.led_sub_pattern_state ≡ n
    → n + k ≡ 3
    → s.led_disabled ≡ false
    → s.led_double_blinker_timer_running ≡ true
    → IsOver (blinks (suc k) s)
unfolding led_double_blink_timer_func double_steps last_step
blinks-IsOver zero n s e h d r =
    let third : s.led_sub_pattern_state ≡ 3 = omega (arith, e, h) in
    rw (r, d, third) record { over_state = refl; over_off = refl; over_timer = refl }
blinks-IsOver (suc k) n s e h d r =
    let q = next_blink n s e (omega (arith, h)) d r in
    blinks-IsOver k (suc n) (led_double_blink_timer_func s) q.0 (omega (arith, h)) q.1 q.2

-- In whatever state a run from a state within the patterns has led to, if the LED is enabled and of the
-- two patterns with steps only the double one runs, at most four firings of its timers end it, with the LED off.
pub run-EndsSoon :
    (es : List LedEvent) (s q : Led)
    → IsInPattern s
    → led_run es s ≡ q
    → q.led_disabled ≡ false
    → q.led_double_blinker_timer_running ≡ true
    → q.led_triple_blinker_timer_running ≡ false
    → EndsSoon q
run-EndsSoon es s q h e d r t =
    let bounded = subst IsInPattern e (run-IsInPattern es s h) in
    let at_most : q.led_sub_pattern_state ≤ 3 = rw t at bounded in
    record {
      steps = suc (3 - q.led_sub_pattern_state);
      steps_bound = omega arith;
      over =
          blinks-IsOver (3 - q.led_sub_pattern_state) q.led_sub_pattern_state q refl
            (omega (arith, at_most)) d r;
    }

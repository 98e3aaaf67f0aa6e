-- ===== src/Sdk.antt =====
-- What the program uses of the Espressif SDK in more than one part: the software timers of `os_timer_arm`
-- and `os_timer_disarm`, and the mode of the radio.
use meter_logger.Prelude.{ℕ, Bool, true, false}

-- A software timer: stopped, or armed to fire once or again and again after a time in ms.
pub data Timer : Type 0 where
  stopped : Timer
  once every : ℕ → Timer

-- The SDK stops a timer that is armed for one firing before it calls the handler.
abbrev pub fire : Timer → Timer
fire stopped = stopped
fire (once ms) = stopped
fire (every ms) = every ms

pub data Opmode : Type 0 where
  null_mode station_mode soft_ap_mode station_ap_mode : Opmode

abbrev pub is_station_ap : Opmode → Bool
is_station_ap null_mode = false
is_station_ap station_mode = false
is_station_ap soft_ap_mode = false
is_station_ap station_ap_mode = true

abbrev pub is_station : Opmode → Bool
is_station null_mode = false
is_station station_mode = true
is_station soft_ap_mode = false
is_station station_ap_mode = false

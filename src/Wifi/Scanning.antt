-- ===== src/Wifi/Scanning.antt =====
-- The scanner of modules/wifi.c goes on.
use meter_logger.Prelude.{ℕ, ◌≡◌, refl, Bool, true, false, if_all, if_either, List}
use meter_logger.Sdk.{Timer, stopped, once, every, fire}
use meter_logger.Wifi.State.{Bss, Answers, Wifi}
use meter_logger.Wifi.Scan.{
  wifi_start_scan, begin_scan, wifi_scan_timer_func, end_scan, wifi_scan_done_cb,
}

abbrev pub IsPending : Timer → Type 0
IsPending stopped = ⊥
IsPending (once ms) = Unit {0}
IsPending (every ms) = Unit {0}

-- While a scan runs, its timeout is armed, and else the timer for the next scan.
abbrev pub Scans : Bool → Timer → Timer → Type 0
Scans true timeout next = IsPending timeout
Scans false timeout next = IsPending next

pub record IsScanning (s : Wifi) : Type 0 where
  pub scans : Scans s.wifi_scan_running s.wifi_scan_timeout_timer s.wifi_scan_timer

pub at :
    (s : Wifi)
    → Scans s.wifi_scan_running s.wifi_scan_timeout_timer s.wifi_scan_timer
    → IsScanning s
at s h = record { scans = h }

pub start-IsScanning :
    (a : Answers) (interval : ℕ) (s : Wifi)
    → s.wifi_scan_running ≡ false
    → IsScanning (wifi_start_scan a interval s)
unfolding wifi_start_scan
start-IsScanning a interval s h = at _ (rw h _)

begin_scan-IsScanning : (a : Answers) (s : Wifi) → IsScanning (begin_scan a s)
unfolding begin_scan
begin_scan-IsScanning a s = if_all IsScanning a.scan_started (at _ _) (start-IsScanning a _ _ refl)

-- A scan that runs needs no timer for the next one.
running_on :
    (b : Bool) (timeout next next' : Timer)
    → b ≡ true
    → Scans b timeout next
    → Scans b timeout next'
running_on true timeout next next' h c = c
running_on false timeout next next' h c = absurd (cc (h))

pub next_set :
    (b : Bool) (timeout next : Timer) (ms : ℕ) → Scans b timeout next → Scans b timeout (once ms)
next_set true timeout next ms c = c
next_set false timeout next ms c = _

-- The timer for the next scan, which is armed no more.
pub scan_timer-IsScanning :
    (a : Answers) (s : Wifi)
    → IsScanning s
    → IsScanning (wifi_scan_timer_func a (record s { wifi_scan_timer = fire s.wifi_scan_timer }))
unfolding wifi_scan_timer_func
scan_timer-IsScanning a s h =
    if_either IsScanning s.wifi_scan_running
      (λ r. at _ (running_on s.wifi_scan_running _ _ _ r h.scans))
      (λ r.
        if_all IsScanning s.radio_busy_connecting (start-IsScanning a _ _ r)
          (begin_scan-IsScanning a _))

end_scan-IsScanning : (a : Answers) (j : Bool × Wifi) → IsScanning (end_scan a j)
unfolding end_scan
end_scan-IsScanning a (b, s) = start-IsScanning a _ _ refl

pub scan_done-IsScanning :
    (a : Answers) (infos : List Bss) (s : Wifi)
    → IsScanning s
    → IsScanning (wifi_scan_done_cb a infos s)
unfolding wifi_scan_done_cb
scan_done-IsScanning a infos s h = if_all IsScanning s.wifi_scan_running (end_scan-IsScanning a _) h

-- The scanner is started while it may run.
pub again-IsScanning :
    (a : Answers) (interval : ℕ) (s : Wifi)
    → IsScanning s
    → IsScanning (wifi_start_scan a interval s)
unfolding wifi_start_scan
again-IsScanning a interval s h = at _ (next_set s.wifi_scan_running _ _ interval h.scans)

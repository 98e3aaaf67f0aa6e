-- ===== src/Wifi/Fallback.antt =====
-- modules/wifi.c in the fallback network.
use meter_logger.Prelude.{
  some, take, ltb, ap, ◌∙◌, ℕ, ◌+◌, ◌≤◌, ◌%◌, ◌^◌, ◌≡◌, refl, Bool, true, false, if_either, leb,
  List, [], ◌∷◌, arith,
}
use meter_logger.Prelude.Text.{Text}
use meter_logger.Wifi.State.{Bss, Answers, Wifi}
use meter_logger.Wifi.Network.{wifi_default}
use meter_logger.Wifi.Joined.{joined, ping-joined}
use meter_logger.Wifi.Scan.{
  wifi_start_scan, begin_scan, wifi_scan_timer_func, note_network, note_networks, fallback_missed,
  judge_fallback, judge_scan, end_scan, wifi_scan_done_cb,
}

-- A scan from its timer to its end, which has found at least one network.
abbrev pub scan_pass : Answers → Bss → List Bss → Wifi → Wifi
scan_pass a info infos s = wifi_scan_done_cb a (info ∷ infos) (wifi_scan_timer_func a s)

-- The name and the password of the default network.
module _ (own : Text × Text) where
  -- The station is in the fallback network, which so many scans have missed.
  pub record IsOn (n : ℕ) (s : Wifi) : Type 0 where
    pub active : s.wifi_fallback_active ≡ true
    pub last : s.wifi_fallback_last_present ≡ true
    pub missed : s.fallback_miss_count ≡ n
    pub idle : s.radio_busy_connecting ≡ false
    pub kept : (s.sta_ssid, s.sta_pwd) ≡ own

  note_network-IsOn :
      (n : ℕ) (info : Bss) (s : Wifi)
      → IsOn n s
      → s.wifi_fallback_present ≡ false
      → IsOn n (note_network info s) × ((note_network info s).wifi_fallback_present ≡ false)
  unfolding note_network
  note_network-IsOn n info s h p = (
    record { active = h.active; last = h.last; missed = h.missed; idle = h.idle; kept = h.kept },
    rw (h.active, p) refl,
  )

  note_networks-IsOn :
      (n : ℕ) (infos : List Bss) (s : Wifi)
      → IsOn n s
      → s.wifi_fallback_present ≡ false
      → IsOn n (note_networks infos s) × ((note_networks infos s).wifi_fallback_present ≡ false)
  note_networks-IsOn n [] s h p = (h, p)
  note_networks-IsOn n (info ∷ infos) s h p =
      let noted = note_network-IsOn n info s h p in note_networks-IsOn n infos _ noted.0 noted.1

  -- The station was told to connect to the network with this name and password, and keeps them.
  pub record IsOff (s : Wifi) : Type 0 where
    pub own_network : (s.sta_ssid, s.sta_pwd) ≡ own
    pub told : joined s.wifi_calls ≡ some (take 31 own.0, take 63 own.1)
    pub inactive : s.wifi_fallback_active ≡ false
    pub gone : s.wifi_fallback_last_present ≡ false

  missed-IsOn : (n : ℕ) (s : Wifi) → n ≤ 1 → IsOn n s → IsOn (n + 1) (fallback_missed s).1
  unfolding fallback_missed
  missed-IsOn n s l h =
      if_either (λ (q : Bool × Wifi). IsOn (n + 1) q.1)
        (leb 3 ((s.fallback_miss_count + 1) % 2 ^ 8)) (λ p. absurd (ground (arith, p, l, h.missed)))
        (λ p. record {
          active = h.active;
          last = h.last;
          missed = omega (arith, h.missed, l);
          idle = h.idle;
          kept = h.kept;
        })

  missed-IsOff : (s : Wifi) → IsOn 2 s → IsOff (fallback_missed s).1
  unfolding fallback_missed wifi_default
  missed-IsOff s h =
      if_either (λ (q : Bool × Wifi). IsOff q.1) (leb 3 ((s.fallback_miss_count + 1) % 2 ^ 8))
        (λ p. record {
          own_network = h.kept;
          told = ap (λ n. some (take 31 n.0, take 63 n.1)) h.kept;
          inactive = refl;
          gone = refl;
        })
        (λ p. absurd (ground (arith, p, h.missed)))

  -- A scan in the fallback network misses it.
  judge_missed :
      (a : Answers) (n : ℕ) (s : Wifi)
      → IsOn n s
      → s.wifi_fallback_present ≡ false
      → judge_fallback a s ≡ fallback_missed s
  unfolding judge_fallback
  judge_missed a n s h p = rw (p, h.last) refl

  record IsRun (n : ℕ) (s : Wifi) : Type 0 where
    running : s.wifi_scan_running ≡ true
    on : IsOn n s

  begun :
      (a : Answers) (n : ℕ) (s : Wifi)
      → a.scan_started ≡ true
      → s.wifi_scan_running ≡ false
      → IsOn n s
      → IsRun n (wifi_scan_timer_func a s)
  unfolding wifi_scan_timer_func begin_scan
  begun a n s t r h =
      if_either (IsRun n) s.wifi_scan_running (λ p. absurd (cc (p, r)))
        (λ p.
          if_either (IsRun n) s.radio_busy_connecting (λ q. absurd (cc (q, h.idle)))
            (λ q.
              if_either (IsRun n) a.scan_started
                (λ u. record {
                  running = refl;
                  on = record {
                    active = h.active;
                    last = h.last;
                    missed = h.missed;
                    idle = h.idle;
                    kept = h.kept;
                  };
                })
                (λ u. absurd (cc (u, t)))))

  -- What a scan makes of the networks, in the fallback network.
  judged :
      (a : Answers) (n : ℕ) (info : Bss) (infos : List Bss) (s : Wifi)
      → IsOn n s
      → (P : Bool × Wifi → Type 0) → ((q : Wifi) → IsOn n q → P (fallback_missed q))
      → P (
          judge_scan a
            (info ∷ infos)
            (record s { wifi_present = false; wifi_fallback_present = false }))
  unfolding judge_scan
  judged a n info infos s h P k =
      let start : Wifi = record s { wifi_present = false; wifi_fallback_present = false } in
      let on : IsOn n start = record {
        active = h.active;
        last = h.last;
        missed = h.missed;
        idle = h.idle;
        kept = h.kept;
      } in
      let noted = note_networks-IsOn n (info ∷ infos) start on refl in
      let end : Wifi = record (note_networks (info ∷ infos) start) { has_scan_result_cb = false } in
      let on_end : IsOn n end = record {
        active = noted.0.active;
        last = noted.0.last;
        missed = noted.0.missed;
        idle = noted.0.idle;
        kept = noted.0.kept;
      } in
      rw (judge_missed a n end on_end noted.1) (k end on_end)

  -- In the fallback network, with no scan running.
  pub record IsReady (n : ℕ) (s : Wifi) : Type 0 where
    pub on : IsOn n s
    pub quiet : s.wifi_scan_running ≡ false

  end_scan-IsReady : (a : Answers) (n : ℕ) (j : Bool × Wifi) → IsOn n j.1 → IsReady n (end_scan a j)
  unfolding end_scan wifi_start_scan
  end_scan-IsReady a n (b, s) h = record {
    on = record {
      active = h.active;
      last = h.last;
      missed = h.missed;
      idle = h.idle;
      kept = h.kept;
    };
    quiet = refl;
  }

  end_scan-IsOff : (a : Answers) (j : Bool × Wifi) → IsOff j.1 → IsOff (end_scan a j)
  unfolding end_scan wifi_start_scan
  end_scan-IsOff a (b, s) h = record {
    own_network = h.own_network;
    told = ping-joined (ltb (s.last_uptime + 60) a.uptime) s.wifi_calls ∙ h.told;
    inactive = h.inactive;
    gone = h.gone;
  }

  pass-IsReady :
      (a : Answers) (n : ℕ) (info : Bss) (infos : List Bss) (s : Wifi)
      → n ≤ 1
      → a.scan_started ≡ true
      → IsReady n s
      → IsReady (n + 1) (scan_pass a info infos s)
  unfolding wifi_scan_done_cb
  pass-IsReady a n info infos s l t h =
      let run = begun a n s t h.quiet h.on in
      if_either (IsReady (n + 1)) (wifi_scan_timer_func a s).wifi_scan_running
        (λ p.
          judged a n info infos _ run.on (λ j. IsReady (n + 1) (end_scan a j))
            (λ q k. end_scan-IsReady a (n + 1) (fallback_missed q) (missed-IsOn n q l k)))
        (λ p. absurd (cc (p, run.running)))

  pass-IsOff :
      (a : Answers) (info : Bss) (infos : List Bss) (s : Wifi)
      → a.scan_started ≡ true
      → IsReady 2 s
      → IsOff (scan_pass a info infos s)
  unfolding wifi_scan_done_cb
  pass-IsOff a info infos s t h =
      let run = begun a 2 s t h.quiet h.on in
      if_either IsOff (wifi_scan_timer_func a s).wifi_scan_running
        (λ p.
          judged a 2 info infos _ run.on (λ j. IsOff (end_scan a j))
            (λ q k. end_scan-IsOff a (fallback_missed q) (missed-IsOff q k)))
        (λ p. absurd (cc (p, run.running)))

  -- When the station is in the fallback network, the radio is not busy, no scan runs and none has missed the
  -- network, three scans that start and find any networks lead back to the default network: the last that the station was
  -- told is to connect to its own network, with its own password, both cut to their arrays. Two scans do not, and
  -- three do also when each finds the fallback network.
  pub fallback-IsOff :
      (a b c : Answers) (x y z : Bss) (xs ys zs : List Bss) (s : Wifi)
      → a.scan_started ≡ true
      → b.scan_started ≡ true
      → c.scan_started ≡ true
      → IsReady 0 s
      → IsReady 2 (scan_pass b y ys (scan_pass a x xs s))
        × IsOff (scan_pass c z zs (scan_pass b y ys (scan_pass a x xs s)))
  fallback-IsOff a b c x y z xs ys zs s p q r h =
      let one = pass-IsReady a 0 x xs s (omega arith) p h in
      let two = pass-IsReady b 1 y ys _ (omega arith) q one in (two, pass-IsOff c z zs _ r two)

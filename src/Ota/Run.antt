-- ===== src/Ota/Run.antt =====
-- Runs of the upgrade of user/ota.c: what happens after `start_ota_update`.
use meter_logger.Prelude.{ℕ, Bool, List, [], ◌∷◌}
use meter_logger.Sdk.{Timer, stopped, once, every, fire}
use meter_logger.Ota.State.{OtaEnv, Ota}
use meter_logger.Ota.Retry.{ota_timeout_timer_cb, ota_progress_timer_cb, ota_tcp_recon_cb}
use meter_logger.Ota.Connect.{ota_tcp_connect_cb, ota_dns_found_cb, ota_retry_timer_cb}
use meter_logger.Ota.Receive.{ota_tcp_recv_cb}
use meter_logger.Ota.Complete.{ota_tcp_discon_cb}

-- A timer fires, the name of the server is found or not, or the connection is made, brings bytes, is broken
-- or is closed.
pub data OtaEvent : Type 0 where
  timeout_timer retry_timer progress_timer : OtaEvent
  dns_found : Bool → OtaEvent
  connected reconnected disconnected : OtaEvent
  received : List ℕ → OtaEvent

-- A timer fires only if it is armed.
abbrev pub fired : Timer → (Ota → Ota) → Ota → Ota
fired stopped f s = s
fired (once ms) f s = f s
fired (every ms) f s = f s

unfoldable pub ota_step : OtaEnv → OtaEvent → Ota → Ota
ota_step e timeout_timer s =
    fired s.ota_timeout_timer (ota_timeout_timer_cb e)
      (record s { ota_timeout_timer = fire s.ota_timeout_timer })
ota_step e retry_timer s =
    fired s.ota_retry_timer (ota_retry_timer_cb e)
      (record s { ota_retry_timer = fire s.ota_retry_timer })
ota_step e progress_timer s = fired s.ota_progress_timer (ota_progress_timer_cb e) s
ota_step e (dns_found found) s = ota_dns_found_cb e found s
ota_step e connected s = ota_tcp_connect_cb e s
ota_step e reconnected s = ota_tcp_recon_cb e s
ota_step e disconnected s = ota_tcp_discon_cb e s
ota_step e (received bytes) s = ota_tcp_recv_cb e bytes s

abbrev pub ota_run : OtaEnv → List OtaEvent → Ota → Ota
ota_run e [] s = s
ota_run e (v ∷ vs) s = ota_run e vs (ota_step e v s)

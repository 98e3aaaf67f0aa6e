-- ===== src/En61107/Session/Invariant.antt =====
-- What holds in all runs of a session of user/en61107/en61107_request.c.
use meter_logger.Prelude.{
  ℕ, zero, suc, ◌+◌, ◌≤◌, ◌≡◌, ◌≢◌, ◌⊎◌, inl, inr, refl, true, false, if◌then◌else◌, ltb, arith,
}
use meter_logger.Sdk.{Timer, stopped, once, every}
use meter_logger.En61107.Bounds.{AllFit}
use meter_logger.En61107.Session.{
  UartState, state_none, state_standard_data_1, state_standard_data_2, state_en61107_ident,
  state_en61107, state_inst_values, is_none, Session, uart_send, en61107_uart_send_en61107_ident,
  en61107_uart_send_en61107, en61107_uart_send_standard_data_1, en61107_uart_send_standard_data_2,
  en61107_uart_send_inst_values, retransmit, backoff_delay, recover,
}

-- Armed for one firing, after a time in the bounds.
abbrev pub IsTimed : ℕ → ℕ → Timer → Type 0
IsTimed a b stopped = ⊥
IsTimed a b (once ms) = (a ≤ ms) × (ms ≤ b)
IsTimed a b (every ms) = ⊥

-- No request is under way, and no recovery.
pub record IsIdle (s : Session) : Type 0 where
  pub idle_state : is_none s.uart_state ≡ true
  pub idle_recovery : s.is_in_error_recovery ≡ false
  pub idle_num : s.request_num ≡ 0
  pub idle_timer : s.receive_timeout_timer ≡ stopped

-- The recovery from errors, with its delay.
pub record IsRecovering (s : Session) : Type 0 where
  pub recovering_state : is_none s.uart_state ≡ true
  pub recovering : s.is_in_error_recovery ≡ true
  pub recovering_num : s.request_num ≡ 0
  pub recovering_timer : IsTimed 5000 60000 s.receive_timeout_timer

-- A request is under way, sent at most twice, with its timeout.
pub record IsBusy (s : Session) : Type 0 where
  pub busy_state : is_none s.uart_state ≡ false
  pub busy_recovery : s.is_in_error_recovery ≡ false
  pub busy_num : (1 ≤ s.request_num) × (s.request_num ≤ 2)
  pub busy_timer : IsTimed 500 8000 s.receive_timeout_timer

abbrev pub Mode : Session → Type 0
Mode s = IsIdle s ⊎ (IsRecovering s ⊎ IsBusy s)

-- What does not depend on the mode.
pub record IsSteady (s : Session) : Type 0 where
  pub backoff_bounded : s.error_backoff_count ≤ 10
  pub serial_known : s.serial_set ≡ true → s.serial ≢ 0
  pub response_fits : AllFit s.response
  pub posted_bounded : s.posted ≤ 64

pub record IsSound (s : Session) : Type 0 where
  pub mode : Mode s
  pub steady : IsSteady s

-- The delay of the recovery, for up to ten recoveries before.
pub backoff_delay-bounds : (n : ℕ) → n ≤ 10 → (5000 ≤ backoff_delay n) × (backoff_delay n ≤ 60000)
unfolding backoff_delay
backoff_delay-bounds zero h = (omega arith, omega arith)
backoff_delay-bounds (suc zero) h = (omega arith, omega arith)
backoff_delay-bounds (suc (suc zero)) h = (omega arith, omega arith)
backoff_delay-bounds (suc (suc (suc zero))) h = (omega arith, omega arith)
backoff_delay-bounds (suc (suc (suc (suc zero)))) h = (omega arith, omega arith)
backoff_delay-bounds (suc (suc (suc (suc (suc zero))))) h = (omega arith, omega arith)
backoff_delay-bounds (suc (suc (suc (suc (suc (suc zero)))))) h = (omega arith, omega arith)
backoff_delay-bounds (suc (suc (suc (suc (suc (suc (suc zero))))))) h = (omega arith, omega arith)
backoff_delay-bounds (suc (suc (suc (suc (suc (suc (suc (suc zero)))))))) h =
    (omega arith, omega arith)
backoff_delay-bounds (suc (suc (suc (suc (suc (suc (suc (suc (suc zero))))))))) h =
    (omega arith, omega arith)
backoff_delay-bounds (suc (suc (suc (suc (suc (suc (suc (suc (suc (suc zero)))))))))) h =
    (omega arith, omega arith)
backoff_delay-bounds (suc (suc (suc (suc (suc (suc (suc (suc (suc (suc (suc n))))))))))) h =
    absurd (omega arith)

-- A session in which a request may be sent: no recovery, and at most the second time.
pub record MaySend (s : Session) : Type 0 where
  pub no_recovery : s.is_in_error_recovery ≡ false
  pub num_bounded : (1 ≤ s.request_num) × (s.request_num ≤ 2)
  pub still_steady : IsSteady s

pub ident-IsSound : (s : Session) → MaySend s → IsSound (en61107_uart_send_en61107_ident s)
unfolding en61107_uart_send_en61107_ident uart_send
ident-IsSound s h = rw h.no_recovery (ground (arith, h))

pub en61107-IsSound : (s : Session) → MaySend s → IsSound (en61107_uart_send_en61107 s)
unfolding en61107_uart_send_en61107 uart_send
en61107-IsSound s h = rw h.no_recovery (ground (arith, h))

pub standard_data_1-IsSound :
    (s : Session) → MaySend s → IsSound (en61107_uart_send_standard_data_1 s)
unfolding en61107_uart_send_standard_data_1 uart_send
standard_data_1-IsSound s h = rw h.no_recovery (ground (arith, h))

pub standard_data_2-IsSound :
    (s : Session) → MaySend s → IsSound (en61107_uart_send_standard_data_2 s)
unfolding en61107_uart_send_standard_data_2 uart_send
standard_data_2-IsSound s h = rw h.no_recovery (ground (arith, h))

pub inst_values-IsSound : (s : Session) → MaySend s → IsSound (en61107_uart_send_inst_values s)
unfolding en61107_uart_send_inst_values uart_send
inst_values-IsSound s h = rw h.no_recovery (ground (arith, h))

pub retransmit-IsSound :
    (state : UartState) (s : Session)
    → is_none state ≡ false
    → MaySend s
    → IsSound (retransmit state s)
unfolding retransmit
retransmit-IsSound state_none s e h = absurd cc
retransmit-IsSound state_en61107_ident s e h = ident-IsSound s h
retransmit-IsSound state_en61107 s e h = ident-IsSound s h
retransmit-IsSound state_inst_values s e h = inst_values-IsSound s h
retransmit-IsSound state_standard_data_1 s e h = standard_data_1-IsSound s h
retransmit-IsSound state_standard_data_2 s e h = standard_data_2-IsSound s h

pub recover-IsSound : (s : Session) → IsSteady s → IsSound (recover s)
unfolding recover
recover-IsSound s h =
    let bounds = backoff_delay-bounds s.error_backoff_count h.backoff_bounded in
    let count : (if ltb s.error_backoff_count 10
          then s.error_backoff_count + 1
          else s.error_backoff_count)
        ≤ 10 =
      ground (arith, h) in
    record {
      mode = inr (
          inl (record {
            recovering_state = refl;
            recovering = refl;
            recovering_num = refl;
            recovering_timer = bounds;
          }));
      steady = record {
        backoff_bounded = count;
        serial_known = h.serial_known;
        response_fits = h.response_fits;
        posted_bounded = h.posted_bounded;
      };
    }

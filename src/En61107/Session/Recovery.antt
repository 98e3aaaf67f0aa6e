-- ===== src/En61107/Session/Recovery.antt =====
-- A session of user/en61107/en61107_request.c whose meter is silent.
use Prim.Native.Nat.{min}
use meter_logger.Prelude.{
  ℕ, zero, suc, ◌*◌, ◌^◌, ◌≤◌, ◌≡◌, ◌⊎◌, inl, inr, refl, ap, ◌∙◌, true, false, replicate, get_elem?,
  some, arith,
}
use meter_logger.Prelude.Text.{codes}
use meter_logger.Sdk.{Timer, stopped, once, every}
use meter_logger.Fifo.Ring.{en61107_fifo_flush}
use meter_logger.En61107.Session.{
  UartState, state_none, state_standard_data_1, state_standard_data_2, state_en61107_ident,
  state_en61107, state_inst_values, is_none, Session, uart0_tx_buffer, uart_send,
  en61107_uart_send_en61107_ident, en61107_uart_send_standard_data_1,
  en61107_uart_send_standard_data_2, en61107_uart_send_inst_values, retransmit, backoff_delay,
  recover, en61107_receive_timeout_timer_func,
}
use meter_logger.En61107.Session.Task.{is_armed, timeout, step, run}
use meter_logger.En61107.Session.Invariant.{
  IsTimed, IsRecovering, IsBusy, IsSound, backoff_delay-bounds,
}
use meter_logger.En61107.Session.Runs.{mode-IsBusy, armed_mode, step-IsSound}

-- The meter was just asked afresh: the identification is sent at 300 baud, for the first time.
pub record IsAsked (s : Session) : Type 0 where
  pub asked_state : s.uart_state ≡ state_en61107_ident
  pub asked_first : s.request_num ≡ 1
  pub asked_timer : s.receive_timeout_timer ≡ once 3000
  pub asked_rate : s.uart.baut_rate ≡ 300
  pub asked_empty : s.fifo.fill_count ≡ 0
  pub asked_sent : get_elem? s.calls 0 ≡ some (uart0_tx_buffer (codes "/?!\r\n"))

timed_armed : (a b : ℕ) (t : Timer) → IsTimed a b t → is_armed t ≡ true
timed_armed a b stopped h = absurd h
timed_armed a b (once ms) h = refl
timed_armed a b (every ms) h = refl

timeout_recovering : (s : Session) → IsRecovering s → IsAsked (step timeout s)
unfolding step en61107_receive_timeout_timer_func en61107_uart_send_en61107_ident uart_send
    en61107_fifo_flush
timeout_recovering s r =
    rw (timed_armed 5000 60000 s.receive_timeout_timer r.recovering_timer, r.recovering)
      (ground arith)

-- What a busy session is after its first timeout.
pub record IsRepeated (s : Session) : Type 0 where
  pub repeated_busy : IsBusy s
  pub repeated_num : s.request_num ≡ 2

retransmit-IsRepeated :
    (state : UartState) (s : Session)
    → is_none state ≡ false
    → s.is_in_error_recovery ≡ false
    → s.request_num ≡ 2
    → IsRepeated (retransmit state s)
unfolding retransmit en61107_uart_send_en61107_ident en61107_uart_send_standard_data_1
    en61107_uart_send_standard_data_2 en61107_uart_send_inst_values uart_send
retransmit-IsRepeated state_none s e r n = absurd cc
retransmit-IsRepeated state_en61107_ident s e r n = rw r (ground (arith, r, n))
retransmit-IsRepeated state_en61107 s e r n = rw r (ground (arith, r, n))
retransmit-IsRepeated state_inst_values s e r n = rw r (ground (arith, r, n))
retransmit-IsRepeated state_standard_data_1 s e r n = rw r (ground (arith, r, n))
retransmit-IsRepeated state_standard_data_2 s e r n = rw r (ground (arith, r, n))

timeout_first : (s : Session) → IsBusy s → s.request_num ≡ 1 → IsRepeated (step timeout s)
unfolding step en61107_receive_timeout_timer_func
timeout_first s b n =
    rw (timed_armed 500 8000 s.receive_timeout_timer b.busy_timer, b.busy_recovery, n)
      (retransmit-IsRepeated s.uart_state _ b.busy_state refl refl)

-- The delay of the recovery from a given number of recoveries before.
pub record IsBackedOff (count : ℕ) (s : Session) : Type 0 where
  pub backed_off : IsRecovering s
  pub backed_off_delay : s.receive_timeout_timer ≡ once (backoff_delay count)

timeout_second :
    (s : Session)
    → IsBusy s
    → s.request_num ≡ 2
    → s.error_backoff_count ≤ 10
    → IsBackedOff s.error_backoff_count (step timeout s)
unfolding step en61107_receive_timeout_timer_func recover
timeout_second s b n h =
    let bounds = backoff_delay-bounds s.error_backoff_count h in
    rw (timed_armed 500 8000 s.receive_timeout_timer b.busy_timer, b.busy_recovery, n)
      (record {
        backed_off = record {
          recovering_state = refl;
          recovering = refl;
          recovering_num = refl;
          recovering_timer = bounds;
        };
        backed_off_delay = refl;
      })

one_or_two : (n : ℕ) → (1 ≤ n) × (n ≤ 2) → (n ≡ 1) ⊎ (n ≡ 2)
one_or_two zero h = absurd (omega (arith, h.0))
one_or_two (suc zero) h = inl refl
one_or_two (suc (suc zero)) h = inr refl
one_or_two (suc (suc (suc n))) h = absurd (omega (arith, h.1))

-- From the second transmission, two timeouts lead to a fresh start.
second-IsAsked : (s : Session) → IsSound s → IsRepeated s → IsAsked (step timeout (step timeout s))
second-IsAsked s h r =
    let off = timeout_second s r.repeated_busy r.repeated_num h.steady.backoff_bounded in
    timeout_recovering (step timeout s) off.backed_off

-- A silent meter is asked afresh: however far a sound session with its timer armed has come, at most
-- three timeouts in a row lead to a first identification at 300 baud.
pub timeouts-IsAsked :
    (s : Session)
    → IsSound s
    → is_armed s.receive_timeout_timer ≡ true
    → (n : ℕ) × (1 ≤ n) × (n ≤ 3) × IsAsked (run (replicate n timeout) s)
unfolding run
timeouts-IsAsked s h e = elim (armed_mode s h e) [
  | inl r ↦ (1, omega arith, omega arith, timeout_recovering s r)
  | inr b ↦ elim (one_or_two s.request_num b.busy_num) [
    | inl one ↦
        (let next = timeout_first s b one in
          (
            3,
            omega arith,
            omega arith,
            second-IsAsked (step timeout s) (step-IsSound timeout s h) next,
          ))
    | inr two ↦ (
      2,
      omega arith,
      omega arith,
      second-IsAsked s h (record { repeated_busy = b; repeated_num = two }),
    )
  ]
]

-- The delay doubles with each recovery from 5 seconds up to a minute.
pub backoff_delay_lem : (n : ℕ) → n ≤ 10 → backoff_delay n ≡ min 60000 (5000 * 2 ^ n)
unfolding backoff_delay
backoff_delay_lem zero h = omega arith
backoff_delay_lem (suc zero) h = omega arith
backoff_delay_lem (suc (suc zero)) h = omega arith
backoff_delay_lem (suc (suc (suc zero))) h = omega arith
backoff_delay_lem (suc (suc (suc (suc zero)))) h = omega arith
backoff_delay_lem (suc (suc (suc (suc (suc zero))))) h = omega arith
backoff_delay_lem (suc (suc (suc (suc (suc (suc zero)))))) h = omega arith
backoff_delay_lem (suc (suc (suc (suc (suc (suc (suc zero))))))) h = omega arith
backoff_delay_lem (suc (suc (suc (suc (suc (suc (suc (suc zero)))))))) h = omega arith
backoff_delay_lem (suc (suc (suc (suc (suc (suc (suc (suc (suc zero))))))))) h = omega arith
backoff_delay_lem (suc (suc (suc (suc (suc (suc (suc (suc (suc (suc zero)))))))))) h = omega arith
backoff_delay_lem (suc (suc (suc (suc (suc (suc (suc (suc (suc (suc (suc n))))))))))) h =
    absurd (omega arith)

-- The second timeout of a request starts the recovery: nothing is asked for, and the timer is armed once
-- for 5 seconds, doubled for each recovery since the last sample, but at most a minute.
pub timeout_second-delay :
    (s : Session)
    → IsSound s
    → is_none s.uart_state ≡ false
    → s.request_num ≡ 2
    → let next = step timeout s in
      IsRecovering next
      × (next.receive_timeout_timer ≡ once (min 60000 (5000 * 2 ^ s.error_backoff_count)))
timeout_second-delay s h e n =
    let off = timeout_second s (mode-IsBusy s h e) n h.steady.backoff_bounded in
    (
      off.backed_off,
      off.backed_off_delay
          ∙ ap once (backoff_delay_lem s.error_backoff_count h.steady.backoff_bounded),
    )

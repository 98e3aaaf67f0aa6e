-- ===== src/Fifo/Ring.antt =====
-- user/kamstrup/kmp_request.c and user/en61107/en61107_request.c: `fifo_buffer` with its indices.
use meter_logger.Prelude.{
  ℕ, ◌+◌, ◌-◌, ◌%◌, Bool, true, false, Option, none, some, List, if◌then◌else◌, ltb, ◌==◌, get_or,
  set,
}

-- QUEUE_SIZE
abbrev pub queue_size : ℕ
queue_size = 256

-- `fifo_buffer`, `fifo_head`, `fifo_tail` and `fifo_buffer_fill_count`
pub record Fifo : Type 0 where
  pub buffer : List ℕ
  pub head : ℕ
  pub tail : ℕ
  pub fill_count : ℕ

-- The byte goes to `fifo_head++ % QUEUE_SIZE`; then the head wraps.
unfoldable pub kmp_fifo_put : Fifo → ℕ → Bool × Fifo
kmp_fifo_put f c = if f.fill_count == queue_size then (false, f) else (
  true,
  record f {
    buffer = set f.buffer (f.head % queue_size) c;
    head = if f.head + 1 == queue_size then 0 else f.head + 1;
    fill_count = f.fill_count + 1;
  },
)

-- The option is `true` with what goes through `c`, or `false`.
unfoldable pub kmp_fifo_get : Fifo → Option ℕ × Fifo
kmp_fifo_get f = if f.fill_count == 0 then (none, f) else (
  some (get_or f.buffer (f.tail % queue_size) 0),
  record f {
    tail = if f.tail + 1 == queue_size then 0 else f.tail + 1;
    fill_count = f.fill_count - 1;
  },
)

unfoldable pub kmp_fifo_snoop : Fifo → ℕ → Option ℕ
kmp_fifo_snoop f pos =
    if ltb pos f.fill_count then some (get_or f.buffer ((f.tail + pos) % queue_size) 0) else none

unfoldable pub en61107_fifo_put : Fifo → ℕ → Bool × Fifo
en61107_fifo_put f c = if f.fill_count == queue_size then (false, f) else (
  true,
  record f {
    buffer = set f.buffer (f.head % queue_size) c;
    head = if f.head + 1 == queue_size then 0 else f.head + 1;
    fill_count = f.fill_count + 1;
  },
)

unfoldable pub en61107_fifo_get : Fifo → Option ℕ × Fifo
en61107_fifo_get f = if f.fill_count == 0 then (none, f) else (
  some (get_or f.buffer (f.tail % queue_size) 0),
  record f {
    tail = if f.tail + 1 == queue_size then 0 else f.tail + 1;
    fill_count = f.fill_count - 1;
  },
)

unfoldable pub en61107_fifo_snoop : Fifo → ℕ → Option ℕ
en61107_fifo_snoop f pos =
    if ltb pos f.fill_count then some (get_or f.buffer ((f.tail + pos) % queue_size) 0) else none

-- The UART's own receive FIFO, which is cleared too, is outside the model.
unfoldable pub en61107_fifo_flush : Fifo → Fifo
en61107_fifo_flush f = record f { head = 0; tail = 0; fill_count = 0 }

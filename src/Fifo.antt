-- ===== src/Fifo.antt =====
-- The receive FIFOs between the UART interrupt and the meter tasks: user/kamstrup/kmp_request.c and
-- user/en61107/en61107_request.c, which have the same buffer. The interrupt puts, the task gets with
-- interrupts disabled, so a run is a sequence of whole calls in any order.
pub mod Ring
pub mod Queue
pub mod Refine
mod Tests

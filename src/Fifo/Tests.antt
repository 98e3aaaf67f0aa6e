-- ===== src/Fifo/Tests.antt =====
-- Runs of the receive FIFOs of user/kamstrup/kmp_request.c and user/en61107/en61107_request.c.
use meter_logger.Prelude.{◌≡◌, refl, true, none, some, List, [], ◌∷◌, replicate, arith}
use meter_logger.Fifo.Ring.{Fifo}
use meter_logger.Fifo.Queue.{
  Call, put, get, snoop, flush, stored, byte, queue_run, en61107_run, kmp_run,
}
use meter_logger.Fifo.Refine.{IsValid, en61107_run_refines, kmp_run_refines}

-- The next byte goes to the end of the array, and the one after it to the start.
abbrev at_end : Fifo
at_end = record { buffer = replicate 256 7; head = 255; tail = 254; fill_count = 1 }

at_end-IsValid : IsValid at_end
at_end-IsValid = omega arith

abbrev calls : List Call
calls = put 1 ∷ put 2 ∷ snoop 1 ∷ get ∷ get ∷ get ∷ get ∷ []

kmp_run-at_end :
    kmp_run at_end calls
    ≡ stored true
      ∷ stored true
      ∷ byte (some 1)
      ∷ byte (some 7)
      ∷ byte (some 1)
      ∷ byte (some 2)
      ∷ byte none
      ∷ []
unfolding kmp_run
kmp_run-at_end = refl

kmp_run_refines_example : kmp_run at_end calls ≡ queue_run (7 ∷ []) calls
kmp_run_refines_example = kmp_run_refines calls at_end at_end-IsValid (omega arith)

en61107_run_refines_example :
    en61107_run at_end (put 1 ∷ flush ∷ get ∷ []) ≡ queue_run (7 ∷ []) (put 1 ∷ flush ∷ get ∷ [])
en61107_run_refines_example = en61107_run_refines (put 1 ∷ flush ∷ get ∷ []) at_end at_end-IsValid

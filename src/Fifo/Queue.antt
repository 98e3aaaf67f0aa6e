-- ===== src/Fifo/Queue.antt =====
-- The specification of the receive FIFOs: a queue of at most 256 bytes, oldest first, and what the
-- calls of user/kamstrup/kmp_request.c and user/en61107/en61107_request.c answer.
use meter_logger.Prelude.{
  ℕ, Bool, true, false, Option, none, some, List, [], ◌∷◌, ◌++◌, if◌then◌else◌, ltb, length,
  get_elem?,
}
use meter_logger.Fifo.Ring.{
  Fifo, queue_size, kmp_fifo_put, kmp_fifo_get, kmp_fifo_snoop, en61107_fifo_put, en61107_fifo_get,
  en61107_fifo_snoop, en61107_fifo_flush,
}

pub data Call : Type 0 where
  put : ℕ → Call
  get : Call
  snoop : ℕ → Call
  flush : Call

-- What a call returns: the Boolean of a put, or the byte of a get or a snoop.
pub data Answer : Type 0 where
  stored : Bool → Answer
  byte : Option ℕ → Answer
  done : Answer

-- A put into a full queue is refused.
unfoldable pub queue_call : List ℕ → Call → Answer × List ℕ
queue_call q (put c) =
    if ltb (length q) queue_size then (stored true, q ++ c ∷ []) else (stored false, q)
queue_call [] get = (byte none, [])
queue_call (x ∷ q) get = (byte (some x), q)
queue_call q (snoop pos) = (byte (get_elem? q pos), q)
queue_call q flush = (done, [])

unfoldable pub queue_run : List ℕ → List Call → List Answer
unfolding queue_call
queue_run q [] = []
queue_run q (c ∷ calls) = let (a, q') = queue_call q c in a ∷ queue_run q' calls

-- The calls of the EN61107 driver.
unfoldable pub en61107_call : Fifo → Call → Answer × Fifo
unfolding en61107_fifo_put en61107_fifo_get en61107_fifo_snoop en61107_fifo_flush
en61107_call f (put c) = let (b, f') = en61107_fifo_put f c in (stored b, f')
en61107_call f get = let (o, f') = en61107_fifo_get f in (byte o, f')
en61107_call f (snoop pos) = (byte (en61107_fifo_snoop f pos), f)
en61107_call f flush = (done, en61107_fifo_flush f)

unfoldable pub en61107_run : Fifo → List Call → List Answer
unfolding en61107_call
en61107_run f [] = []
en61107_run f (c ∷ calls) = let (a, f') = en61107_call f c in a ∷ en61107_run f' calls

-- The calls of the KMP driver. It has no flush: such a call changes nothing.
unfoldable pub kmp_call : Fifo → Call → Answer × Fifo
unfolding kmp_fifo_put kmp_fifo_get kmp_fifo_snoop
kmp_call f (put c) = let (b, f') = kmp_fifo_put f c in (stored b, f')
kmp_call f get = let (o, f') = kmp_fifo_get f in (byte o, f')
kmp_call f (snoop pos) = (byte (kmp_fifo_snoop f pos), f)
kmp_call f flush = (done, f)

unfoldable pub kmp_run : Fifo → List Call → List Answer
unfolding kmp_call
kmp_run f [] = []
kmp_run f (c ∷ calls) = let (a, f') = kmp_call f c in a ∷ kmp_run f' calls

abbrev pub IsKmpCall : Call → Type 0
IsKmpCall flush = ⊥
IsKmpCall _ = Unit {0}

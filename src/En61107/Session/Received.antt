-- ===== src/En61107/Session/Received.antt =====
-- The end of a telegram in user/en61107/en61107_request.c: the interrupt recognises it, and the task reads what
-- the interrupt has put into the FIFO.
use meter_logger.Prelude.{
  ℕ, zero, suc, ◌+◌, ◌≤◌, ◌<◌, ◌≡◌, ◌≢◌, refl, sym, ap, ◌∙◌, append_assoc, append-nil, true, false,
  ltb, ◌==◌, some, none, List, [], ◌∷◌, ◌++◌, map, length, length-append, arith,
}
use meter_logger.Prelude.Search.{Lacks}
use meter_logger.Fifo.Ring.{Fifo, queue_size, en61107_fifo_put, en61107_fifo_get}
use meter_logger.Fifo.Queue.{put, get, byte, queue_call, en61107_call}
use meter_logger.Fifo.Refine.{IsValid, contents, put-Agrees, get-Agrees}
use meter_logger.En61107.Session.{Session, drain, en61107_is_eod_char}
use meter_logger.En61107.Session.Task.{queue_length, received, uart_receive, step, run}

-- The FIFO after the interrupts for some characters.
unfoldable pub puts : Fifo → List ℕ → Fifo
puts f [] = f
puts f (c ∷ cs) = puts (en61107_fifo_put f c).1 cs

queue_put : (q : List ℕ) (c : ℕ) → length q < queue_size → (queue_call q (put c)).1 ≡ q ++ c ∷ []
unfolding queue_call
queue_put q c h = ground (arith, h)

-- While there is room, the FIFO holds all characters in their order.
pub puts_lem :
    (cs : List ℕ) (f : Fifo)
    → IsValid f
    → length (contents f) + length cs ≤ queue_size
    → (contents (puts f cs) ≡ contents f ++ cs) × IsValid (puts f cs)
unfolding puts en61107_call
puts_lem [] f v h = (sym (append-nil (contents f)), v)
puts_lem (c ∷ cs) f v h =
    let a = put-Agrees f c v in
    let f' = (en61107_fifo_put f c).1 in
    let one : contents f' ≡ contents f ++ c ∷ [] =
      a.rest ∙ queue_put (contents f) c (omega arith) in
    let size : length (contents f') ≡ length (contents f) + 1 =
      ap length one ∙ length-append (contents f) (c ∷ []) in
    let ih = puts_lem cs f' a.valid (omega (arith, size)) in
    (ih.0 ∙ ap (λ q. q ++ cs) one ∙ append_assoc (contents f) (c ∷ []) cs, ih.1)

-- What a get answers and leaves, by what the FIFO holds.
get_nil : (f : Fifo) → IsValid f → contents f ≡ [] → (en61107_fifo_get f).0 ≡ none
unfolding en61107_call queue_call
get_nil f v e =
    let a = get-Agrees f v in
    let answer : byte (en61107_fifo_get f).0 ≡ (queue_call [] get).0 =
      a.answer ∙ ap (λ q. (queue_call q get).0) e in
    ground (arith, answer)

get_cons :
    (f : Fifo) (c : ℕ) (q : List ℕ)
    → IsValid f
    → contents f ≡ c ∷ q
    → ((en61107_fifo_get f).0 ≡ some c)
      × (contents (en61107_fifo_get f).1 ≡ q)
      × IsValid (en61107_fifo_get f).1
unfolding en61107_call queue_call
get_cons f c q v e =
    let a = get-Agrees f v in
    let answer : byte (en61107_fifo_get f).0 ≡ (queue_call (c ∷ q) get).0 =
      a.answer ∙ ap (λ q. (queue_call q get).0) e in
    let rest : contents (en61107_fifo_get f).1 ≡ (queue_call (c ∷ q) get).1 =
      a.rest ∙ ap (λ q. (queue_call q get).1) e in
    (ground (arith, answer), rest, a.valid)

drain_of :
    (n : ℕ) (f : Fifo) (q : List ℕ) → IsValid f → contents f ≡ q → length q ≤ n → (drain n f).0 ≡ q
unfolding drain
drain_of zero f [] v e h = refl
drain_of zero f (c ∷ q) v e h = absurd (omega arith)
drain_of (suc n) f [] v e h = rw (drain, get_nil f v e) refl
drain_of (suc n) f (c ∷ q) v e h =
    let g = get_cons f c q v e in
    rw (drain, g.0) (ap (λ t. c ∷ t) (drain_of n (en61107_fifo_get f).1 q g.2 g.1 (omega arith)))

-- The loop of the task takes them all.
pub drain_lem :
    (n : ℕ) (f : Fifo) → IsValid f → length (contents f) ≤ n → (drain n f).0 ≡ contents f
drain_lem n f v h = drain_of n f (contents f) v refl h

-- Characters before ETX only go to the FIFO.
received_plain :
    (cs : List ℕ) (s : Session)
    → Lacks 3 cs
    → s.eod ≡ 3
    → s.etx_received ≡ false
    → run (map received cs) s ≡ record s { fifo = puts s.fifo cs }
unfolding run step uart_receive en61107_is_eod_char puts
received_plain [] s h e t = refl
received_plain (c ∷ cs) s h e t =
    let no : (c == 3) ≡ false = ground (arith, h.0) in
    let one : step (received c) s ≡ record s { fifo = (en61107_fifo_put s.fifo c).1 } =
      rw (e, no, t) refl in
    ap (run (map received cs)) one ∙ received_plain cs _ h.1 e t

received_3 :
    (s : Session)
    → s.eod ≡ 3
    → step (received 3) s ≡ record s { fifo = (en61107_fifo_put s.fifo 3).1; etx_received = true }
unfolding step uart_receive en61107_is_eod_char
received_3 s e = rw (e) refl

received_after :
    (c : ℕ) (s : Session)
    → c ≢ 3
    → s.eod ≡ 3
    → s.etx_received ≡ true
    → s.posted < queue_length
    → step (received c) s ≡ record s {
      fifo = (en61107_fifo_put s.fifo c).1;
      etx_received = false;
      posted = s.posted + 1;
    }
unfolding step uart_receive en61107_is_eod_char
received_after c s n e t p =
    let no : (c == 3) ≡ false = ground (arith, n) in
    let room : ltb s.posted queue_length ≡ true = ground (arith, p) in rw (e, no, t, room) refl

-- ETX and the character behind it post the task.
pub received_etx :
    (cs : List ℕ) (c : ℕ) (s : Session)
    → Lacks 3 cs
    → c ≢ 3
    → s.eod ≡ 3
    → s.etx_received ≡ false
    → s.posted < queue_length
    → run (map received (cs ++ 3 ∷ c ∷ [])) s
      ≡ record s { fifo = puts s.fifo (cs ++ 3 ∷ c ∷ []); posted = s.posted + 1 }
unfolding run step uart_receive en61107_is_eod_char puts
received_etx [] c s h n e t p =
    let etx : Session = record s { fifo = (en61107_fifo_put s.fifo 3).1; etx_received = true } in
    ap (step (received c)) (received_3 s e) ∙ received_after c etx n e refl p ∙ rw (t) refl
received_etx (x ∷ cs) c s h n e t p =
    let no : (x == 3) ≡ false = ground (arith, h.0) in
    let one : step (received x) s ≡ record s { fifo = (en61107_fifo_put s.fifo x).1 } =
      rw (e, no, t) refl in
    ap (run (map received (cs ++ 3 ∷ c ∷ []))) one ∙ received_etx cs c _ h.1 n e t p

-- A telegram whose check sum is 3, the value of ETX, is not recognised: all its characters are in the FIFO,
-- but no task is posted, and the session waits on.
received_etx-lost :
    (cs : List ℕ) (s : Session)
    → Lacks 3 cs
    → s.eod ≡ 3
    → s.etx_received ≡ false
    → run (map received (cs ++ 3 ∷ 3 ∷ [])) s
      ≡ record s { fifo = puts s.fifo (cs ++ 3 ∷ 3 ∷ []); etx_received = true }
unfolding run step uart_receive en61107_is_eod_char puts
received_etx-lost [] s h e t =
    let etx : Session = record s { fifo = (en61107_fifo_put s.fifo 3).1; etx_received = true } in
    ap (step (received 3)) (received_3 s e) ∙ received_3 etx e
received_etx-lost (x ∷ cs) s h e t =
    let no : (x == 3) ≡ false = ground (arith, h.0) in
    let one : step (received x) s ≡ record s { fifo = (en61107_fifo_put s.fifo x).1 } =
      rw (e, no, t) refl in
    ap (run (map received (cs ++ 3 ∷ 3 ∷ []))) one ∙ received_etx-lost cs _ h.1 e t

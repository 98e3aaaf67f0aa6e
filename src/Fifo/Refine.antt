-- ===== src/Fifo/Refine.antt =====
-- The FIFOs of user/kamstrup/kmp_request.c and user/en61107/en61107_request.c behave as the queue of
-- the bytes that they hold.
use meter_logger.Prelude.{
  ℕ, zero, suc, ◌+◌, ◌-◌, ◌%◌, ◌≤◌, ◌<◌, ◌≡◌, ◌≢◌, refl, ap, ap₂, ◌∙◌, none, some, List, [], ◌∷◌,
  ◌++◌, length, length-set, get_elem?, get_or, get_or-set_self, get_or-set_ne, set, All, arith,
}
use meter_logger.Fifo.Ring.{Fifo, queue_size}
use meter_logger.Fifo.Queue.{
  Call, put, get, snoop, flush, Answer, queue_call, queue_run, en61107_call, en61107_run, kmp_call,
  kmp_run, IsKmpCall,
}

-- The head stands `fill_count` places behind the tail, going round.
pub record IsValid (f : Fifo) : Type 0 where
  pub size : length f.buffer ≡ queue_size
  pub tail_in : f.tail < queue_size
  pub fill_in : f.fill_count ≤ queue_size
  pub head_is : f.head ≡ (f.tail + f.fill_count) % queue_size

-- The `n` bytes from index `t` on, going round.
abbrev pub bytes_from : List ℕ → ℕ → ℕ → List ℕ
bytes_from b t zero = []
bytes_from b t (suc n) = get_or b t 0 ∷ bytes_from b ((t + 1) % queue_size) n

abbrev pub contents : Fifo → List ℕ
contents f = bytes_from f.buffer f.tail f.fill_count

pub length-bytes_from : (b : List ℕ) (t n : ℕ) → length (bytes_from b t n) ≡ n
length-bytes_from b t zero = refl
length-bytes_from b t (suc n) = ap suc (length-bytes_from b ((t + 1) % queue_size) n)

bytes_from-set :
    (b : List ℕ) (t n i v : ℕ)
    → length b ≡ queue_size
    → t < queue_size
    → n < queue_size
    → i ≡ (t + n) % queue_size
    → bytes_from (set b i v) t (suc n) ≡ bytes_from b t n ++ v ∷ []
bytes_from-set b t zero i v hb ht hn e =
    let here : i ≡ t = omega arith in
    ap (λ x. x ∷ []) (rw here (get_or-set_self b t v 0 (omega arith)))
bytes_from-set b t (suc n) i v hb ht hn e =
    ap₂ ◌∷◌ (get_or-set_ne b i t v 0 (omega arith))
      (bytes_from-set b ((t + 1) % queue_size) n i v hb (omega arith) (omega arith) (omega arith))

get_elem?-bytes_from :
    (b : List ℕ) (t n pos : ℕ)
    → t < queue_size
    → pos < n
    → n ≤ queue_size
    → get_elem? (bytes_from b t n) pos ≡ some (get_or b ((t + pos) % queue_size) 0)
get_elem?-bytes_from b t zero pos ht h hn = absurd (omega arith)
get_elem?-bytes_from b t (suc n) zero ht h hn =
    let here : (t + 0) % queue_size ≡ t = omega arith in rw here
get_elem?-bytes_from b t (suc n) (suc pos) ht h hn =
    let there : ((t + 1) % queue_size + pos) % queue_size ≡ (t + suc pos) % queue_size =
      omega arith in
    get_elem?-bytes_from b ((t + 1) % queue_size) n pos (omega arith) (omega arith) (omega arith)
    ∙ ap (λ k. some (get_or b k 0)) there

get_elem?_beyond : (xs : List ℕ) (pos : ℕ) → length xs ≤ pos → get_elem? xs pos ≡ none
get_elem?_beyond [] pos h = refl
get_elem?_beyond (x ∷ xs) zero h = absurd (omega arith)
get_elem?_beyond (x ∷ xs) (suc pos) h = get_elem?_beyond xs pos (omega arith)

bytes_from_pos :
    (b : List ℕ) (t n : ℕ)
    → n ≢ 0
    → bytes_from b t n ≡ get_or b t 0 ∷ bytes_from b ((t + 1) % queue_size) (n - 1)
bytes_from_pos b t zero h = absurd (h refl)
bytes_from_pos b t (suc n) h = ap (λ k. bytes_from b t (suc k)) (omega arith)

-- What one call does: the answer of the queue, the queue's contents, and the invariant.
pub record Agrees (f : Fifo) (c : Call) (r : Answer × Fifo) : Type 0 where
  pub answer : r.0 ≡ (queue_call (contents f) c).0
  pub rest : contents r.1 ≡ (queue_call (contents f) c).1
  pub valid : IsValid r.1

pub put-Agrees : (f : Fifo) (c : ℕ) → IsValid f → Agrees f (put c) (en61107_call f (put c))
unfolding en61107_call queue_call
put-Agrees f c v = record {
  answer = ground (arith, length-bytes_from f.buffer f.tail f.fill_count);
  rest = ground (
    arith,
    length-bytes_from f.buffer f.tail f.fill_count,
    bytes_from-set f.buffer f.tail f.fill_count (f.head % queue_size) c,
  );
  valid = ground (arith, length-set f.buffer (f.head % queue_size) c);
}

pub get-Agrees : (f : Fifo) → IsValid f → Agrees f get (en61107_call f get)
unfolding en61107_call queue_call
get-Agrees f v = record {
  answer = ground (arith, bytes_from_pos f.buffer f.tail f.fill_count);
  rest = ground (arith, bytes_from_pos f.buffer f.tail f.fill_count);
  valid = ground arith;
}

snoop-Agrees : (f : Fifo) (pos : ℕ) → IsValid f → Agrees f (snoop pos) (en61107_call f (snoop pos))
unfolding en61107_call queue_call
snoop-Agrees f pos v = record {
  answer = ground (
    arith,
    get_elem?-bytes_from f.buffer f.tail f.fill_count pos,
    get_elem?_beyond (contents f) pos,
    length-bytes_from f.buffer f.tail f.fill_count,
  );
  rest = refl;
  valid = v;
}

flush-Agrees : (f : Fifo) → IsValid f → Agrees f flush (en61107_call f flush)
unfolding en61107_call queue_call
flush-Agrees f v = record { answer = refl; rest = refl; valid = ground arith }

call-Agrees : (f : Fifo) (c : Call) → IsValid f → Agrees f c (en61107_call f c)
call-Agrees f (put c) v = put-Agrees f c v
call-Agrees f get v = get-Agrees f v
call-Agrees f (snoop pos) v = snoop-Agrees f pos v
call-Agrees f flush v = flush-Agrees f v

-- Whatever calls arrive, in whatever order, a valid EN61107 FIFO answers as the queue of at most 256
-- bytes that it holds.
pub en61107_run_refines :
    (calls : List Call) (f : Fifo) → IsValid f → en61107_run f calls ≡ queue_run (contents f) calls
unfolding en61107_run queue_run
en61107_run_refines [] f v = refl
en61107_run_refines (c ∷ calls) f v =
    let a = call-Agrees f c v in
    ap₂ ◌∷◌ a.answer
      (en61107_run_refines calls (en61107_call f c).1 a.valid ∙ ap (λ q. queue_run q calls) a.rest)

kmp_call-en61107_call : (f : Fifo) (c : Call) → IsKmpCall c → kmp_call f c ≡ en61107_call f c
unfolding kmp_call en61107_call
kmp_call-en61107_call f (put c) h = refl
kmp_call-en61107_call f get h = refl
kmp_call-en61107_call f (snoop pos) h = refl
kmp_call-en61107_call f flush h = absurd h

kmp_run-en61107_run :
    (calls : List Call) (f : Fifo) → All IsKmpCall calls → kmp_run f calls ≡ en61107_run f calls
unfolding kmp_run en61107_run
kmp_run-en61107_run [] f h = refl
kmp_run-en61107_run (c ∷ calls) f h =
    let e = kmp_call-en61107_call f c h.0 in
    ap₂ ◌∷◌ (ap (λ r. r.0) e)
      (ap (λ r. kmp_run r.1 calls) e ∙ kmp_run-en61107_run calls (en61107_call f c).1 h.1)

-- Whatever puts, gets and snoops arrive, in whatever order, a valid KMP FIFO answers as the queue of
-- at most 256 bytes that it holds.
pub kmp_run_refines :
    (calls : List Call) (f : Fifo)
    → IsValid f
    → All IsKmpCall calls
    → kmp_run f calls ≡ queue_run (contents f) calls
kmp_run_refines calls f v h = kmp_run-en61107_run calls f h ∙ en61107_run_refines calls f v

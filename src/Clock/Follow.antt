-- ===== src/Clock/Follow.antt =====
-- The clock of user/unix_time.c against the time itself.
use meter_logger.Prelude.{
  ℕ, ◌+◌, ◌*◌, ◌/◌, ◌%◌, ◌^◌, ◌≤◌, ◌<◌, ◌≡◌, ◌≢◌, refl, ap₂, List, [], ◌∷◌, arith,
}
use meter_logger.Clock.{Clock, get_unix_time}

-- The clock has read the time `t` last.
abbrev pub InStep : ℕ → Clock → Type 0
InStep t s = (s.last_sntp_raw ≡ t % 2 ^ 32) × (s.epoch_overflow_offset ≡ t / 2 ^ 32 * 2 ^ 32)

-- The clock as it is at the start.
abbrev pub IsFresh : Clock → Type 0
IsFresh s = (s.last_sntp_raw ≡ 0) × (s.epoch_overflow_offset ≡ 0)

-- The times are in order, less than 2 ^ 28 s apart, below 2 ^ 64, and SNTP tells none of them as 0.
abbrev pub Ordered : ℕ → List ℕ → Type 0
Ordered t [] = Unit
Ordered t (u ∷ us) = (t ≤ u) × (u < t + 2 ^ 28) × (u < 2 ^ 64) × (u % 2 ^ 32 ≢ 0) × Ordered u us

-- What the clock answers when it is read at these times.
abbrev pub read_at : List ℕ → Clock → List ℕ
read_at [] s = []
read_at (t ∷ ts) s = let r = get_unix_time (t % 2 ^ 32) s in r.0 ∷ read_at ts r.1

get_unix_time-InStep :
    (t u : ℕ) (s : Clock)
    → InStep t s
    → t ≤ u
    → u < t + 2 ^ 28
    → u < 2 ^ 64
    → u % 2 ^ 32 ≢ 0
    → let r = get_unix_time (u % 2 ^ 32) s in (r.0 ≡ u) × InStep u r.1
unfolding get_unix_time
get_unix_time-InStep t u s p a b c d = ground arith

-- Read at times that follow each other within 2 ^ 28 s and that SNTP does not tell as 0, the clock answers
-- the times, also where the 32 bits of SNTP roll over.
pub read_at-Ordered :
    (t : ℕ) (ts : List ℕ) (s : Clock) → InStep t s → Ordered t ts → read_at ts s ≡ ts
read_at-Ordered t [] s p o = refl
read_at-Ordered t (u ∷ us) s p (a, b, c, d, o) =
    let h = get_unix_time-InStep t u s p a b c d in
    ap₂ (λ x xs. x ∷ xs) h.0 (read_at-Ordered u us (get_unix_time (u % 2 ^ 32) s).1 h.1 o)

get_unix_time-IsFresh :
    (t : ℕ) (s : Clock)
    → IsFresh s
    → 1 ≤ t
    → t < 2 ^ 32
    → let r = get_unix_time (t % 2 ^ 32) s in (r.0 ≡ t) × InStep t r.1
unfolding get_unix_time
get_unix_time-IsFresh t s p a b = ground arith

-- From the start, the clock answers the times at which it is read, across rollovers of the 32 bits of SNTP, when the
-- first time is at least 1 and below 2 ^ 32, the times never go back, two that follow each other are less than 2 ^ 28 s
-- apart, all are below 2 ^ 64 and none is 0 modulo 2 ^ 32.
pub read_at-IsFresh :
    (t : ℕ) (ts : List ℕ) (s : Clock)
    → IsFresh s
    → 1 ≤ t
    → t < 2 ^ 32
    → Ordered t ts
    → read_at (t ∷ ts) s ≡ t ∷ ts
read_at-IsFresh t ts s p a b o =
    let h = get_unix_time-IsFresh t s p a b in
    ap₂ (λ x xs. x ∷ xs) h.0 (read_at-Ordered t ts (get_unix_time (t % 2 ^ 32) s).1 h.1 o)

-- After 0xf0000000 the clock takes a step back of SNTP, by a second or more, for a rollover: it answers
-- a time 2 ^ 32 s ahead of what SNTP tells.
pub get_unix_time-set_back :
    (t u : ℕ) (s : Clock)
    → InStep t s
    → u < t
    → t / 2 ^ 32 ≡ u / 2 ^ 32
    → 0xf0000000 < t % 2 ^ 32
    → u % 2 ^ 32 ≢ 0
    → u + 2 ^ 32 < 2 ^ 64
    → (get_unix_time (u % 2 ^ 32) s).0 ≡ u + 2 ^ 32
unfolding get_unix_time
get_unix_time-set_back t u s p a b c d e = ground arith

-- ===== src/Prelude/Search.antt =====
-- `strstr`, `strtok` and the end of a C string, on texts.
use Prim.Native.Nat.{ℕ, suc, ◌<◌}
use mathlib.Core.Path.{◌≡◌, refl}
use mathlib.Core.Logic.{◌≢◌, inl, inr}
use mathlib.Core.Bool.{Bool, true, false, not, ◌&&◌}
use mathlib.Core.Option.{Option, none, some}
use mathlib.Core.List.{List, [], ◌∷◌, ◌++◌}
use native.Mathlib.Omega.{arith}
use meter_logger.Prelude.Tests.{◌==◌, if◌then◌else◌, Option-cases}
use meter_logger.Prelude.Lists.{length, All}
use meter_logger.Prelude.Text.{Text}

-- The C string that begins a buffer.
unfoldable pub c_string : List ℕ → Text
c_string [] = []
c_string (c ∷ rest) = let tail = c_string rest in if c == 0 then [] else c ∷ tail

unfoldable pub starts_with : Text → Text → Bool
starts_with [] s = true
starts_with (n ∷ ns) [] = false
starts_with (n ∷ ns) (c ∷ s) = n == c && starts_with ns s

abbrev pub next_index : Option ℕ → Option ℕ
next_index none = none
next_index (some i) = some (suc i)

-- The index of the first occurrence of a needle, which is not empty: `strstr(s, needle) - s`.
unfoldable pub find : Text → Text → Option ℕ
find needle [] = none
find needle (c ∷ s) =
    let later = find needle s in if starts_with needle (c ∷ s) then some 0 else next_index later

abbrev pub end_token : Text → List Text → List Text
end_token [] ts = ts
end_token (c ∷ t) ts = (c ∷ t) ∷ ts

-- The tokens that `strtok` gives one after the other, where `t` is the part of a token that stands
-- before the text.
unfoldable pub tokens : ℕ → Text → Text → List Text
tokens d t [] = end_token t []
tokens d t (c ∷ s) =
    let ended = tokens d [] s in
    let longer = tokens d (t ++ c ∷ []) s in if c == d then end_token t ended else longer

-- A text without a character.
abbrev pub Lacks : ℕ → Text → Type 0
Lacks c = All (λ x. x ≢ c)

-- A test that all characters pass.
abbrev pub all : (ℕ → Bool) → Text → Bool
all t [] = true
all t (c ∷ s) = t c && all t s

pub all-All :
    (P : ℕ → Type 0) (t : ℕ → Bool) (s : Text)
    → ((c : ℕ) → t c ≡ true → P c)
    → all t s ≡ true
    → All P s
all-All P t [] f h = _
all-All P t (c ∷ s) f h = (f c (ground (arith, h)), all-All P t s f (ground (arith, h)))

pub all-Lacks : (c : ℕ) (s : Text) → all (λ x. not (x == c)) s ≡ true → Lacks c s
all-Lacks c s h = all-All _ (λ x. not (x == c)) s (λ x k. ground (arith, k)) h

pub starts_with-append : (needle s : Text) → starts_with needle (needle ++ s) ≡ true
unfolding starts_with
starts_with-append [] s = refl
starts_with-append (n ∷ ns) s = ground (arith, starts_with-append ns s)

-- The needle is found behind a text that has not its first character.
pub find-append :
    (n : ℕ) (ns xs ys : Text)
    → Lacks n xs
    → find (n ∷ ns) (xs ++ ((n ∷ ns) ++ ys)) ≡ some (length xs)
unfolding find starts_with
find-append n ns [] ys h = rw (starts_with-append (n ∷ ns) ys) refl
find-append n ns (x ∷ xs) ys h = let ih = find-append n ns xs ys h.1 in rw ih (ground (arith, h.0))

pub find-Lacks : (n : ℕ) (ns xs : Text) → Lacks n xs → find (n ∷ ns) xs ≡ none
unfolding find starts_with
find-Lacks n ns [] h = refl
find-Lacks n ns (x ∷ xs) h = let ih = find-Lacks n ns xs h.1 in rw ih (ground (arith, h.0))

pub find-lt : (needle s : Text) (i : ℕ) → find needle s ≡ some i → i < length s
unfolding find
find-lt needle [] i h = absurd (cc)
find-lt needle (c ∷ s) i h = elim (Option-cases (find needle s)) [
  | inl e ↦ ground (arith, e)
  | inr f ↦ (let below = find-lt needle s f.0 f.1 in ground (arith, f.1, below))
]

pub c_string-append : (xs ys : List ℕ) → Lacks 0 xs → c_string (xs ++ ys) ≡ xs ++ c_string ys
unfolding c_string
c_string-append [] ys h = refl
c_string-append (x ∷ xs) ys h = let ih = c_string-append xs ys h.1 in rw ih (ground (arith, h.0))

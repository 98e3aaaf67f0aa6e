-- ===== src/Prelude/Text.antt =====
-- C strings as lists of byte values without the terminating NUL, and the functions of the C library
-- that the program uses on them.
use Prim.Native.Char.{code}
use Prim.Native.String.{String}
use Prim.Native.Nat.{ℕ, ◌+◌, ◌-◌, ◌*◌, ◌≤◌}
use mathlib.Core.Path.{◌≡◌, refl}
use mathlib.Core.Logic.{◌↔◌}
use mathlib.Core.Bool.{Bool, true, false, ◌&&◌, ◌||◌}
use mathlib.Core.List.{List, [], ◌∷◌}
use native.Mathlib.Omega.{arith}
use meter_logger.Prelude.Tests.{leb, ◌==◌, ==_iff, if◌then◌else◌}

abbrev pub Text : Type 0
Text = List ℕ

-- The bytes of a literal, if it is ASCII.
abbrev pub codes : String → Text
codes String.[] = []
codes (String.◌∷◌ c s) = code c ∷ codes s

-- `strcmp(a, b) == 0`; with texts shorter than the bound also `strncmp(a, b, n) == 0`.
unfoldable pub text_eq : Text → Text → Bool
text_eq [] [] = true
text_eq [] (y ∷ ys) = false
text_eq (x ∷ xs) [] = false
text_eq (x ∷ xs) (y ∷ ys) = x == y && text_eq xs ys

pub text_eq_iff : (a b : Text) → (text_eq a b ≡ true) ↔ (a ≡ b)
unfolding text_eq
text_eq_iff [] [] = ((λ h. refl), (λ h. refl))
text_eq_iff [] (y ∷ ys) = ((λ h. cc), (λ h. cc))
text_eq_iff (x ∷ xs) [] = ((λ h. cc), (λ h. cc))
text_eq_iff (x ∷ xs) (y ∷ ys) = ground (arith, text_eq_iff xs ys, ==_iff x y)

unfoldable pub is_digit : ℕ → Bool
is_digit c = leb b'0' c && leb c b'9'

-- A digit as it is written.
abbrev pub IsDigit : ℕ → Type 0
IsDigit c = (b'0' ≤ c) × (c ≤ b'9')

-- A number with its sign.
pub record Signed : Type 0 where
  pub negative : Bool
  pub magnitude : ℕ

unfoldable pub digits_from : ℕ → Text → ℕ
unfolding is_digit
digits_from n [] = n
digits_from n (c ∷ rest) = elim (is_digit c) [
  | true ↦ digits_from (n * 10 + (c - b'0')) rest
  | false ↦ n
]

unfoldable pub is_space : ℕ → Bool
is_space c = c == 32 || (leb 9 c && leb c 13)

unfoldable pub signed_from : Text → Signed
unfolding digits_from
signed_from [] = record { negative = false; magnitude = 0 }
signed_from (c ∷ rest) =
    if c == b'-'
    then record { negative = true; magnitude = digits_from 0 rest }
    else if c == b'+'
    then record { negative = false; magnitude = digits_from 0 rest }
    else record { negative = false; magnitude = digits_from 0 (c ∷ rest) }

-- `atoi`, on texts whose number fits an `int`.
unfoldable pub atoi : Text → Signed
unfolding signed_from is_space
atoi [] = signed_from []
atoi (c ∷ rest) = elim (is_space c) [ true ↦ atoi rest | false ↦ signed_from (c ∷ rest) ]

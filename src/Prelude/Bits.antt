-- ===== src/Prelude/Bits.antt =====
-- Laws of `bit_xor` and of masks at variables, from the recursion on binary digits that the native
-- operations stand for, and the check of all numbers below a bound by evaluation.
use Prim.Native.Nat.{ℕ, zero, suc, ◌+◌, ◌*◌, ◌/◌, ◌%◌, ◌≤◌, ◌<◌, ◌^◌, min, max}
use Prim.Native.Nat.{bit_and, bit_or, bit_xor, digits, bitwise, differ}
use Prim.Native.Nat.{bit_and-bitwise, bit_or-bitwise, bit_xor-bitwise}
use mathlib.Core.Path.{◌≡◌, refl, sym, ap, ◌∙◌}
use mathlib.Core.Bool.{Bool, true, false}
use native.Mathlib.Nat.{le_refl, pow-suc}
use native.Mathlib.Omega.{arith}
use meter_logger.Prelude.Tests.{if◌then◌else◌, leb, leb→le, Bool-cases}
use mathlib.Core.Logic.{inl, inr}

-- Whether p answers true at each number from `n` down to 1, less one.
unfoldable pub checked : (ℕ → Bool) → ℕ → Bool
checked p zero = true
checked p (suc n) = if p n then checked p n else false

pub checked_lem : (p : ℕ → Bool) (n x : ℕ) → checked p n ≡ true → x < n → p x ≡ true
unfolding checked
checked_lem p zero x h lt = absurd (omega arith)
checked_lem p (suc n) x h lt = ground (arith, checked_lem p n x)

module _ (z : ℕ → ℕ) (f : ℕ → ℕ → ℕ) where
  -- More fuel than the number changes nothing.
  one_more : (n a b : ℕ) → a ≤ n → digits z f (suc n) a b ≡ digits z f n a b
  one_more n zero b h = no_digit n b
    where
      no_digit : (n b : ℕ) → digits z f (suc n) zero b ≡ digits z f n zero b
      no_digit zero b = refl
      no_digit (suc n) b = refl
  one_more zero (suc a) b h = absurd (omega arith)
  one_more (suc n) (suc a) b h =
      let half = one_more n (suc a / 2) (b / 2) (omega arith) in
      ap (λ d. d * 2 + f (suc a % 2) (b % 2)) half

  plenty : (n a b : ℕ) → a ≤ n → digits z f n a b ≡ digits z f a a b
  plenty zero zero b h = refl
  plenty zero (suc a) b h = absurd (omega arith)
  plenty (suc n) a b h = elim (Bool-cases (leb a n)) [
    | inl small ↦ one_more n a b (leb→le a n small) ∙ plenty n a b (leb→le a n small)
    | inr large ↦ let same : suc n ≡ a = ground arith in ap (λ k. digits z f k a b) same
  ]

  halves :
      (a b : ℕ)
      → bitwise z f (suc a) b ≡ f (suc a % 2) (b % 2) + 2 * bitwise z f (suc a / 2) (b / 2)
  halves a b = omega (arith, plenty a (suc a / 2) (b / 2) (omega arith))

differ-mod : (a b : ℕ) → a < 2 → b < 2 → differ a b ≡ (a + b) % 2
differ-mod zero b p q = omega arith
differ-mod (suc zero) zero p q = refl
differ-mod (suc zero) (suc zero) p q = refl
differ-mod (suc zero) (suc (suc b)) p q = absurd (omega arith)
differ-mod (suc (suc a)) b p q = absurd (omega arith)

-- The lowest digit of an exclusive or, of a conjunction and of a disjunction.
pub bit_xor_step : (a b : ℕ) → bit_xor a b ≡ (a + b) % 2 + 2 * bit_xor (a / 2) (b / 2)
bit_xor_step zero b = simp bit_xor-bitwise (omega arith)
bit_xor_step (suc a) b = omega (
  arith,
  bit_xor-bitwise (suc a) b,
  bit_xor-bitwise (suc a / 2) (b / 2),
  halves (λ y. y) differ a b,
  differ-mod (suc a % 2) (b % 2) (omega arith) (omega arith),
)

pub bit_and_step : (a b : ℕ) → bit_and a b ≡ min (a % 2) (b % 2) + 2 * bit_and (a / 2) (b / 2)
bit_and_step zero b = simp bit_and-bitwise (omega arith)
bit_and_step (suc a) b =
    omega (
      arith,
      bit_and-bitwise (suc a) b,
      bit_and-bitwise (suc a / 2) (b / 2),
      halves (λ y. 0) min a b,
    )

pub bit_or_step : (a b : ℕ) → bit_or a b ≡ max (a % 2) (b % 2) + 2 * bit_or (a / 2) (b / 2)
bit_or_step zero b = simp bit_or-bitwise (omega arith)
bit_or_step (suc a) b =
    omega
      (arith, bit_or-bitwise (suc a) b, bit_or-bitwise (suc a / 2) (b / 2), halves (λ y. y) max a b)

-- Each law goes from the halves to the numbers, with a bound on the size as fuel.
xor_self_fuel : (n a : ℕ) → a ≤ n → bit_xor a a ≡ 0
xor_self_fuel n zero h = refl
xor_self_fuel zero (suc a) h = absurd (omega arith)
xor_self_fuel (suc n) (suc a) h =
    omega (arith, bit_xor_step (suc a) (suc a), xor_self_fuel n (suc a / 2) (omega arith))

pub xor_self : (a : ℕ) → bit_xor a a ≡ 0
xor_self a = xor_self_fuel a a (le_refl a)

xor-zero_fuel : (n a : ℕ) → a ≤ n → bit_xor a 0 ≡ a
xor-zero_fuel n zero h = refl
xor-zero_fuel zero (suc a) h = absurd (omega arith)
xor-zero_fuel (suc n) (suc a) h =
    omega (arith, bit_xor_step (suc a) 0, xor-zero_fuel n (suc a / 2) (omega arith))

pub xor-zero : (a : ℕ) → bit_xor a 0 ≡ a
xor-zero a = xor-zero_fuel a a (le_refl a)

pub zero-xor : (a : ℕ) → bit_xor 0 a ≡ a
zero-xor a = bit_xor-bitwise 0 a

xor_cancel_fuel : (n a b : ℕ) → a ≤ n → b ≤ n → bit_xor (bit_xor a b) b ≡ a
xor_cancel_fuel zero zero zero p q = refl
xor_cancel_fuel zero zero (suc b) p q = absurd (omega arith)
xor_cancel_fuel zero (suc a) b p q = absurd (omega arith)
xor_cancel_fuel (suc n) a b p q =
    let x = bit_xor a b in
    let half : x / 2 ≡ bit_xor (a / 2) (b / 2) = omega (arith, bit_xor_step a b) in
    let ih = xor_cancel_fuel n (a / 2) (b / 2) (omega arith) (omega arith) in
    omega (arith, bit_xor_step a b, bit_xor_step x b, ap (λ (t : ℕ). bit_xor t (b / 2)) half, ih)

-- An exclusive or with a number is undone by the same number.
pub xor_cancel : (a b : ℕ) → bit_xor (bit_xor a b) b ≡ a
xor_cancel a b = xor_cancel_fuel (a + b) a b (omega arith) (omega arith)

-- Numbers of `k` bits have an exclusive or of `k` bits.
pub xor-lt : (k a b : ℕ) → a < 2 ^ k → b < 2 ^ k → bit_xor a b < 2 ^ k
xor-lt zero zero zero p q = omega arith
xor-lt zero zero (suc b) p q = absurd (omega arith)
xor-lt zero (suc a) b p q = absurd (omega arith)
xor-lt (suc k) a b p q = ground (arith, pow-suc 2 k, bit_xor_step a b, xor-lt k (a / 2) (b / 2))

double_power : (q k : ℕ) → q * 2 ^ suc k ≡ q * 2 ^ k + q * 2 ^ k
double_power q k = omega (arith, ap (λ (t : ℕ). q * t) (pow-suc 2 k))

-- The high and the low bits go each by themselves.
pub xor_fields :
    (k q r s t : ℕ)
    → r < 2 ^ k
    → t < 2 ^ k
    → bit_xor (q * 2 ^ k + r) (s * 2 ^ k + t) ≡ bit_xor q s * 2 ^ k + bit_xor r t
xor_fields zero q zero s zero p h = ground arith
xor_fields zero q zero s (suc t) p h = absurd (omega arith)
xor_fields zero q (suc r) s t p h = absurd (omega arith)
xor_fields (suc k) q r s t p h = ground (
  arith,
  bit_xor_step (q * 2 ^ suc k + r) (s * 2 ^ suc k + t),
  bit_xor_step r t,
  double_power q k,
  double_power s k,
  double_power (bit_xor q s) k,
  pow-suc 2 k,
  xor_fields k q (r / 2) s (t / 2) (omega (arith, pow-suc 2 k)) (omega (arith, pow-suc 2 k)),
)

and-zero_fuel : (n a : ℕ) → a ≤ n → bit_and a 0 ≡ 0
and-zero_fuel n zero h = refl
and-zero_fuel zero (suc a) h = absurd (omega arith)
and-zero_fuel (suc n) (suc a) h =
    omega (arith, bit_and_step (suc a) 0, and-zero_fuel n (suc a / 2) (omega arith))

-- Masks of four and of eight low bits.
pub bit_and_nibble : (a : ℕ) → bit_and a 0x0f ≡ a % 16
bit_and_nibble a = omega (
  arith,
  bit_and_step a 15,
  bit_and_step (a / 2) 7,
  bit_and_step (a / 2 / 2) 3,
  bit_and_step (a / 2 / 2 / 2) 1,
  and-zero_fuel (a / 2 / 2 / 2 / 2) (a / 2 / 2 / 2 / 2) (le_refl _),
)

pub bit_and_byte : (a : ℕ) → bit_and a 0xff ≡ a % 256
bit_and_byte a = omega (
  arith,
  bit_and_step a 255,
  bit_and_step (a / 2) 127,
  bit_and_step (a / 2 / 2) 63,
  bit_and_step (a / 2 / 2 / 2) 31,
  bit_and_nibble (a / 2 / 2 / 2 / 2),
)

xor_comm_fuel : (n a b : ℕ) → a ≤ n → b ≤ n → bit_xor a b ≡ bit_xor b a
xor_comm_fuel zero zero zero p q = refl
xor_comm_fuel zero zero (suc b) p q = absurd (omega arith)
xor_comm_fuel zero (suc a) b p q = absurd (omega arith)
xor_comm_fuel (suc n) a b p q =
    let ih = xor_comm_fuel n (a / 2) (b / 2) (omega arith) (omega arith) in
    omega (arith, bit_xor_step a b, bit_xor_step b a, ih)

pub xor_comm : (a b : ℕ) → bit_xor a b ≡ bit_xor b a
xor_comm a b = xor_comm_fuel (a + b) a b (omega arith) (omega arith)

pub xor_right_injective : (a b e : ℕ) → bit_xor a e ≡ bit_xor b e → a ≡ b
xor_right_injective a b e h = sym (xor_cancel a e) ∙ ap (λ x. bit_xor x e) h ∙ xor_cancel b e

pub xor_left_injective : (a x y : ℕ) → bit_xor a x ≡ bit_xor a y → x ≡ y
xor_left_injective a x y h = xor_right_injective x y a (xor_comm x a ∙ h ∙ xor_comm a y)

or-zero_fuel : (n a : ℕ) → a ≤ n → bit_or a 0 ≡ a
or-zero_fuel n zero h = refl
or-zero_fuel zero (suc a) h = absurd (omega arith)
or-zero_fuel (suc n) (suc a) h =
    omega (arith, bit_or_step (suc a) 0, or-zero_fuel n (suc a / 2) (omega arith))

-- `low | high << k` is a sum when `low` has `k` bits.
pub bit_or_fields : (k high low : ℕ) → low < 2 ^ k → bit_or low (high * 2 ^ k) ≡ high * 2 ^ k + low
bit_or_fields zero high zero h = omega (arith, bit_or-bitwise 0 (high * 1))
bit_or_fields zero high (suc low) h = absurd (omega arith)
bit_or_fields (suc k) high low h = ground (
  arith,
  bit_or_step low (high * 2 ^ suc k),
  double_power high k,
  pow-suc 2 k,
  bit_or_fields k high (low / 2) (omega (arith, pow-suc 2 k)),
)

-- ===== src/Ota/Numbers.antt =====
-- The numbers in the header of an answer, as user/ota.c reads them.
use meter_logger.Prelude.{
  ℕ, ◌+◌, ◌-◌, ◌*◌, ◌/◌, ◌^◌, ◌≤◌, ◌<◌, ◌≡◌, refl, inl, inr, Bool-cases, Bool, true, false, none,
  some, if◌then◌else◌, ltb, ltb→lt, [], ◌∷◌, ◌++◌, get_or, arith, All,
}
use meter_logger.Prelude.Text.{Text, codes, is_digit, IsDigit, digits_from}
use meter_logger.Ota.Http.{
  crlf, is_blank, skip_blanks, digits_loop, read_number, ends_line, ota_parse_uint32,
  ota_parse_content_range,
}

abbrev pub IsDigits : Text → Type 0
IsDigits = All IsDigit

-- The text does not go on with a digit.
abbrev EndsDigits : Text → Type 0
EndsDigits s = is_digit (get_or s 0 0) ≡ false

-- Digits make a number larger.
pub digits_from_le : (n : ℕ) (ds : Text) → IsDigits ds → n ≤ digits_from n ds
unfolding digits_from is_digit
digits_from_le n [] h = omega arith
digits_from_le n (c ∷ ds) h =
    let more = digits_from_le (n * 10 + (c - b'0')) ds h.1 in ground (arith, more, h.0)

pub digit : (d : ℕ) → IsDigit d → is_digit d ≡ true
unfolding is_digit
digit d h = ground (arith, h)

pub digits_from-digit :
    (n d : ℕ) (ds : Text)
    → IsDigit d
    → digits_from n (d ∷ ds) ≡ digits_from (n * 10 + (d - b'0')) ds
unfolding digits_from
digits_from-digit n d ds h = rw (digits_from, digit d h) refl

pub digits_from_nil : (n : ℕ) → digits_from n [] ≡ n
unfolding digits_from
digits_from_nil n = refl

-- Whether there was a digit.
abbrev seen : Bool → Text → Bool
seen have [] = have
seen have (c ∷ ds) = true

digits_loop-fits :
    (n : ℕ) (have : Bool) (ds s : Text)
    → IsDigits ds
    → EndsDigits s
    → digits_from n ds < 2 ^ 32
    → digits_loop n have (ds ++ s) ≡ some (digits_from n ds, seen have ds, s)
unfolding digits_loop
digits_loop-fits n have [] [] h q l = rw (digits_from_nil n) refl
digits_loop-fits n have [] (c ∷ s) h q l = rw (q, digits_from_nil n) refl
digits_loop-fits n have (d ∷ ds) s h q l =
    let step = digits_from-digit n d ds h.0 in
    let fits : digits_from (n * 10 + (d - b'0')) ds < 2 ^ 32 = rw (← step) l in
    let le = digits_from_le (n * 10 + (d - b'0')) ds h.1 in
    let rest = digits_loop-fits (n * 10 + (d - b'0')) true ds s h.1 q fits in
    rw (digit d h.0, step) (ground (arith, rest, le, fits, h.0))

digits_loop-large :
    (n : ℕ) (have : Bool) (ds s : Text)
    → IsDigits ds
    → n < 2 ^ 32
    → 2 ^ 32 ≤ digits_from n ds
    → digits_loop n have (ds ++ s) ≡ none
unfolding digits_loop
digits_loop-large n have [] s h m l = absurd (omega (arith, m, l, digits_from_nil n))
digits_loop-large n have (d ∷ ds) s h m l =
    let step = digits_from-digit n d ds h.0 in
    let large : 2 ^ 32 ≤ digits_from (n * 10 + (d - b'0')) ds = rw (← step) l in
    elim (Bool-cases (ltb ((0xffffffff - (d - b'0')) / 10) n)) [
      | inl p ↦ rw (digit d h.0, p) refl
      | inr p ↦
          (let m' : n * 10 + (d - b'0') < 2 ^ 32 = ground (arith, p, h.0) in
            let rest = digits_loop-large (n * 10 + (d - b'0')) true ds s h.1 m' large in
            rw (digit d h.0, p) rest)
    ]

abbrev pub IsBlank : ℕ → Type 0
IsBlank c = is_blank c ≡ true

skip_blanks-start : (s : Text) → is_blank (get_or s 0 0) ≡ false → skip_blanks s ≡ s
unfolding skip_blanks
skip_blanks-start [] h = refl
skip_blanks-start (c ∷ s) h = rw h refl

skip_blanks-append :
    (b s : Text) → All IsBlank b → is_blank (get_or s 0 0) ≡ false → skip_blanks (b ++ s) ≡ s
unfolding skip_blanks
skip_blanks-append [] s h k = skip_blanks-start s k
skip_blanks-append (c ∷ b) s h k = rw (h.0) (skip_blanks-append b s h.1 k)

blank-EndsDigits : (b s : Text) → All IsBlank b → EndsDigits (b ++ (crlf ++ s))
unfolding is_digit
blank-EndsDigits [] s h = refl
blank-EndsDigits (c ∷ b) s h = ground (arith, h.0)

ends_line-blank : (b s : Text) → All IsBlank b → ends_line (b ++ (crlf ++ s)) ≡ true
unfolding ends_line
ends_line-blank b s h = rw (skip_blanks-append b (crlf ++ s) h refl) refl

digit-not_blank : (d : ℕ) → IsDigit d → is_blank d ≡ false
digit-not_blank d h = ground (arith, h)

read_number-fits :
    (d : ℕ) (ds s : Text)
    → IsDigits (d ∷ ds)
    → EndsDigits s
    → digits_from 0 (d ∷ ds) < 2 ^ 32
    → read_number (d ∷ (ds ++ s)) ≡ some (digits_from 0 (d ∷ ds), s)
unfolding read_number
read_number-fits d ds s h q l = rw (digits_loop-fits 0 false (d ∷ ds) s h q l) refl

read_number-large :
    (d : ℕ) (ds s : Text)
    → IsDigits (d ∷ ds)
    → 2 ^ 32 ≤ digits_from 0 (d ∷ ds)
    → read_number (d ∷ (ds ++ s)) ≡ none
unfolding read_number
read_number-large d ds s h l = rw (digits_loop-large 0 false (d ∷ ds) s h (omega arith) l) refl

-- The value of a header that is digits, with blanks around them, is read as the number that they are if it fits
-- into 32 bits, and is refused otherwise.
pub ota_parse_uint32_lem :
    (before after : Text) (d : ℕ) (ds rest : Text)
    → All IsBlank before
    → All IsBlank after
    → IsDigits (d ∷ ds)
    → ota_parse_uint32 (before ++ d ∷ (ds ++ (after ++ (crlf ++ rest))))
      ≡ (if ltb (digits_from 0 (d ∷ ds)) (2 ^ 32) then some (digits_from 0 (d ∷ ds)) else none)
unfolding ota_parse_uint32
ota_parse_uint32_lem before after d ds rest b a h =
    let s = after ++ (crlf ++ rest) in
    let skipped = skip_blanks-append before (d ∷ (ds ++ s)) b (digit-not_blank d h.0) in
    elim (Bool-cases (ltb (digits_from 0 (d ∷ ds)) (2 ^ 32))) [
      | inl p ↦
          (let fits = read_number-fits d ds s h (blank-EndsDigits after rest a) (ltb→lt _ _ p) in
            rw (skipped, fits, ends_line-blank after rest a, p) refl)
      | inr p ↦
          (let large = read_number-large d ds s h (ground (arith, p)) in
            rw (skipped, large, p) refl)
    ]

-- A range of bytes that is written with its start, its end and the size of the whole, each below 2^32, is read as these
-- three numbers.
ota_parse_content_range_lem :
    (before after : Text) (a b c : ℕ) (a' b' c' rest : Text)
    → All IsBlank before
    → All IsBlank after
    → IsDigits (a ∷ a')
    → IsDigits (b ∷ b')
    → IsDigits (c ∷ c')
    → digits_from 0 (a ∷ a') < 2 ^ 32
    → digits_from 0 (b ∷ b') < 2 ^ 32
    → digits_from 0 (c ∷ c') < 2 ^ 32
    → ota_parse_content_range (
        before
        ++ (codes "bytes "
            ++ a ∷ (a' ++ b'-' ∷ (b ∷ (b' ++ b'/' ∷ (c ∷ (c' ++ (after ++ (crlf ++ rest)))))))))
      ≡ some (digits_from 0 (a ∷ a'), digits_from 0 (b ∷ b'), digits_from 0 (c ∷ c'))
unfolding ota_parse_content_range
ota_parse_content_range_lem before after a b c a' b' c' rest h k ha hb hc la lb lc =
    let u3 = after ++ (crlf ++ rest) in
    let u2 = b'/' ∷ (c ∷ (c' ++ u3)) in
    let u1 = b'-' ∷ (b ∷ (b' ++ u2)) in
    let u0 = a ∷ (a' ++ u1) in
    let unit = skip_blanks-append before (codes "bytes " ++ u0) h refl in
    let start = digits_loop-fits 0 false (a ∷ a') u1 ha refl la in
    let end = digits_loop-fits 0 false (b ∷ b') u2 hb refl lb in
    let total = digits_loop-fits 0 false (c ∷ c') u3 hc (blank-EndsDigits after rest k) lc in
    rw (unit, digit-not_blank a ha.0, start, end, total, ends_line-blank after rest k) refl

-- ===== src/Escape/Percent.antt =====
-- The escapes of user/utils.c against the escape of each character by itself.
use meter_logger.Prelude.{
  ℕ, ◌+◌, ◌<◌, ◌≡◌, ◌≢◌, ◌⊎◌, inl, inr, refl, ap, ◌∙◌, Bool, true, false, if◌then◌else◌, ◌==◌, [],
  ◌∷◌, length, All, some, arith,
}
use meter_logger.Prelude.Text.{Text}
use meter_logger.Escape.Query.{
  escape_pass, query_string_escape, unescape_pass, query_string_unescape,
}

-- The escape of a text, of '&' if `ands`, and of '='.
abbrev pub escaped : Bool → Text → Text
escaped ands [] = []
escaped true (x ∷ xs) =
    if x == b'&'
    then b'%' ∷ b'2' ∷ b'6' ∷ escaped true xs
    else if x == b'='
    then b'%' ∷ b'3' ∷ b'D' ∷ escaped true xs
    else x ∷ escaped true xs
escaped false (x ∷ xs) =
    if x == b'=' then b'%' ∷ b'3' ∷ b'D' ∷ escaped false xs else x ∷ escaped false xs

-- A pass goes over what is no escape of its own.
skip :
    (d e c x : ℕ) (rest : Text)
    → x ≢ b'%'
    → unescape_pass d e c (x ∷ rest) ≡ x ∷ unescape_pass d e c rest
unfolding unescape_pass
skip d e c x [] h = refl
skip d e c x (y ∷ []) h = refl
skip d e c x (y ∷ z ∷ rest) h = ground arith

other :
    (d e c y z : ℕ) (rest : Text)
    → (y ≢ d) ⊎ (z ≢ e)
    → unescape_pass d e c (b'%' ∷ y ∷ z ∷ rest) ≡ b'%' ∷ unescape_pass d e c (y ∷ z ∷ rest)
unfolding unescape_pass
other d e c y z rest h = ground arith

own :
    (d e c : ℕ) (rest : Text)
    → unescape_pass d e c (b'%' ∷ d ∷ e ∷ rest) ≡ c ∷ unescape_pass d e c rest
unfolding unescape_pass
own d e c rest = ground arith

-- A pass keeps an escape that is not its own.
keep :
    (d e c y z : ℕ) (rest : Text)
    → (y ≢ d) ⊎ (z ≢ e)
    → y ≢ b'%'
    → z ≢ b'%'
    → unescape_pass d e c (b'%' ∷ y ∷ z ∷ rest) ≡ b'%' ∷ y ∷ z ∷ unescape_pass d e c rest
keep d e c y z rest h p q =
    other d e c y z rest h
    ∙ ap (λ t. b'%' ∷ t) (skip d e c y (z ∷ rest) p ∙ ap (λ t. y ∷ t) (skip d e c z rest q))

-- The three passes.
first_pass :
    (s : Text)
    → All (λ x. x ≢ b'%') s
    → unescape_pass b'2' b'6' b'&' (escaped true s) ≡ escaped false s
first_pass [] h = unfold unescape_pass in refl
first_pass (x ∷ s) h =
    let t = escaped true s in
    ground (
      arith,
      own b'2' b'6' b'&' t,
      keep b'2' b'6' b'&' b'3' b'D' t (inl (omega arith)) (omega arith) (omega arith),
      skip b'2' b'6' b'&' x t h.0,
      first_pass s h.1,
    )

-- A pass that is not for '=' in this spelling changes nothing.
second_pass :
    (s : Text)
    → All (λ x. x ≢ b'%') s
    → unescape_pass b'3' b'd' b'=' (escaped false s) ≡ escaped false s
second_pass [] h = unfold unescape_pass in refl
second_pass (x ∷ s) h =
    let t = escaped false s in
    ground (
      arith,
      keep b'3' b'd' b'=' b'3' b'D' t (inr (omega arith)) (omega arith) (omega arith),
      skip b'3' b'd' b'=' x t h.0,
      second_pass s h.1,
    )

third_pass : (s : Text) → All (λ x. x ≢ b'%') s → unescape_pass b'3' b'D' b'=' (escaped false s) ≡ s
third_pass [] h = unfold unescape_pass in refl
third_pass (x ∷ s) h =
    let t = escaped false s in
    ground (arith, own b'3' b'D' b'=' t, skip b'3' b'D' b'=' x t h.0, third_pass s h.1)

-- How many bytes the escapes of '&' and of '=' add.
abbrev pub growth : ℕ → Text → ℕ
growth c [] = 0
growth c (x ∷ xs) = (if x == c then 2 else 0) + growth c xs

-- The escape of '&' alone.
abbrev ands_escaped : Text → Text
ands_escaped [] = []
ands_escaped (x ∷ xs) =
    if x == b'&' then b'%' ∷ b'2' ∷ b'6' ∷ ands_escaped xs else x ∷ ands_escaped xs

ands_pass :
    (s : Text) (size len : ℕ)
    → len + growth b'&' s < size
    → escape_pass b'&' (b'%' ∷ b'2' ∷ b'6' ∷ []) size len s
      ≡ (some (len + growth b'&' s), ands_escaped s)
unfolding escape_pass
ands_pass [] size len h = ap (λ n. (some n, [])) (omega arith)
ands_pass (x ∷ s) size len h = ground (arith, ands_pass s size (len + 2), ands_pass s size len)

equals_pass :
    (s : Text) (size len : ℕ)
    → len + growth b'=' s < size
    → escape_pass b'=' (b'%' ∷ b'3' ∷ b'D' ∷ []) size len (ands_escaped s)
      ≡ (some (len + growth b'=' s), escaped true s)
unfolding escape_pass
equals_pass [] size len h = ap (λ n. (some n, [])) (omega arith)
equals_pass (x ∷ s) size len h =
    ground (arith, equals_pass s size (len + 2), equals_pass s size len)

-- A text without '%' that fits with its escapes is escaped, with its new length as the answer, and
-- unescaped to itself again.
pub query_string_unescape-escape :
    (s : Text) (size : ℕ)
    → All (λ x. x ≢ b'%') s
    → length s + growth b'&' s + growth b'=' s < size
    → let r = query_string_escape s size in
      (r.0 ≡ some (length s + growth b'&' s + growth b'=' s))
      × (query_string_unescape r.1 ≡ (length s, s))
unfolding query_string_escape query_string_unescape
query_string_unescape-escape s size h fits =
    let a = ands_pass s size (length s) (omega arith) in
    let b = equals_pass s size (length s + growth b'&' s) fits in
    rw (a, b) (refl, rw (first_pass s h, second_pass s h, third_pass s h) refl)

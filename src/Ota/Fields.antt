-- ===== src/Ota/Fields.antt =====
-- The header of an answer as its fields, and how user/ota.c finds one.
use meter_logger.Prelude.{
  ℕ, zero, suc, ◌+◌, ◌≤◌, ◌<◌, ◌≡◌, refl, ap, ◌∙◌, inl, inr, Bool, Bool-cases, true, false, ◌&&◌,
  ◌||◌, none, some, if◌then◌else◌, ltb, ◌==◌, List, [], ◌∷◌, ◌++◌, length, length-append,
  append_assoc, drop, drop-append, get_or, arith, All,
}
use meter_logger.Prelude.Text.{Text, text_eq}
use meter_logger.Prelude.Search.{starts_with, find, Lacks, find-append}
use meter_logger.Ota.Http.{
  crlf, is_blank, skip_blanks, ota_ascii_lower, ota_ascii_equal_n, Found, note_value, names,
  header_lines, ota_get_header_value,
}

-- A field is its name and its value.
abbrev pub Field : Type 0
Field = Text × Text

abbrev pub line_of : Field → Text
line_of f = f.0 ++ b':' ∷ (b' ' ∷ f.1)

abbrev pub render : List Field → Text
render [] = []
render (f ∷ fs) = line_of f ++ (crlf ++ render fs)

-- A field that can be written: its name has no colon, no part of it ends the line, and the value starts
-- with no blank.
pub record IsField (f : Field) : Type 0 where
  pub name_ends : Lacks b':' f.0
  pub one_line : Lacks 13 (line_of f)
  pub value_starts : is_blank (get_or f.1 0 0) ≡ false

abbrev lower : Text → Text
lower [] = []
lower (c ∷ s) = ota_ascii_lower c ∷ lower s

-- The name, whatever its case.
unfoldable pub is_named : Text → Field → Bool
is_named name f = text_eq (lower f.0) (lower name)

abbrev pub any_named : Text → List Field → Bool
any_named name [] = false
any_named name (f ∷ fs) = is_named name f || any_named name fs

-- The line and what follows it, where the name ends, and what the loop compares.
equal_n-text_eq :
    (a s name : Text)
    → (length a == length name && ota_ascii_equal_n (a ++ s) name (length name))
      ≡ text_eq (lower a) (lower name)
unfolding ota_ascii_equal_n text_eq
equal_n-text_eq [] s [] = refl
equal_n-text_eq [] s (n ∷ name) = ground arith
equal_n-text_eq (c ∷ a) s [] = ground arith
equal_n-text_eq (c ∷ a) s (n ∷ name) = let ih = equal_n-text_eq a s name in ground (arith, ih)

-- A line from its name on.
split_line :
    (f : Field) (u : Text)
    → line_of f ++ (crlf ++ u) ≡ f.0 ++ ((b':' ∷ []) ++ (b' ' ∷ (f.1 ++ (crlf ++ u))))
split_line f u = append_assoc f.0 (b':' ∷ (b' ' ∷ f.1)) (crlf ++ u)

pub drop_both : (a b c : Text) (n : ℕ) → length a + length b ≡ n → drop n (a ++ (b ++ c)) ≡ c
drop_both a b c n h =
    let l = length-append a b in
    rw (← append_assoc a b c) (drop-append (a ++ b) c n (omega (arith, l, h)))

value-skip :
    (v u : Text)
    → is_blank (get_or v 0 0) ≡ false
    → skip_blanks (v ++ (crlf ++ u)) ≡ v ++ (crlf ++ u)
unfolding skip_blanks
value-skip [] u h = refl
value-skip (c ∷ v) u h = rw h refl

field_value :
    (f : Field) (u : Text)
    → is_blank (get_or f.1 0 0) ≡ false
    → skip_blanks (drop (length f.0 + 1) (line_of f ++ (crlf ++ u))) ≡ f.1 ++ (crlf ++ u)
unfolding skip_blanks
field_value f u h =
    let t = b' ' ∷ (f.1 ++ (crlf ++ u)) in
    let behind = drop_both f.0 (b':' ∷ []) t (length f.0 + 1) refl in
    rw (split_line f u, behind) (value-skip f.1 u h)

names-is_named :
    (name : Text) (f : Field) (u : Text)
    → names name (line_of f ++ (crlf ++ u)) (length (line_of f)) (some (length f.0))
      ≡ is_named name f
unfolding names is_named
names-is_named name f u =
    let rest = b':' ∷ (b' ' ∷ (f.1 ++ (crlf ++ u))) in
    let compared = equal_n-text_eq f.0 rest name in
    let l = length-append f.0 (b':' ∷ (b' ' ∷ f.1)) in
    let shorter : ltb (length f.0) (length (line_of f)) ≡ true = ground (arith, l) in
    rw (shorter, split_line f u) compared

field-step :
    (fuel : ℕ) (name : Text) (f : Field) (u : Text) (found : Found)
    → IsField f
    → header_lines (suc fuel) name (line_of f ++ (crlf ++ u)) found
      ≡ header_lines fuel name u
          (if is_named name f then note_value (f.1 ++ (crlf ++ u)) found else found)
unfolding header_lines
field-step fuel name f u found h =
    let line_end = find-append 13 (10 ∷ []) (line_of f) u h.one_line in
    let colon = find-append b':' [] f.0 (b' ' ∷ (f.1 ++ (crlf ++ u))) h.name_ends in
    let colon' : find (b':' ∷ []) (line_of f ++ (crlf ++ u)) ≡ some (length f.0) =
      rw (split_line f u) colon in
    let l = length-append f.0 (b':' ∷ (b' ' ∷ f.1)) in
    let filled : (length (line_of f) == 0) ≡ false = ground (arith, l) in
    let next = drop_both (line_of f) crlf u (length (line_of f) + 2) refl in
    let value = field_value f u h.value_starts in
    rw (header_lines, line_end, filled, colon', next, names-is_named name f u, value) refl

-- What is found in the fields, where `u` follows them.
abbrev found_in : Text → List Field → Text → Found → Found
found_in name [] u found = found
found_in name (f ∷ fs) u found =
    found_in name fs u
      (if is_named name f then note_value (f.1 ++ (crlf ++ (render fs ++ u))) found else found)

-- The empty line ends the header.
end_of_header :
    (fuel : ℕ) (name body : Text) (found : Found)
    → header_lines (suc fuel) name (crlf ++ body) found ≡ found
unfolding header_lines find starts_with
end_of_header fuel name body found = refl

header_lines-render :
    (fuel : ℕ) (name : Text) (fs : List Field) (body : Text) (found : Found)
    → All IsField fs
    → length fs < fuel
    → header_lines fuel name (render fs ++ (crlf ++ body)) found
      ≡ found_in name fs (crlf ++ body) found
header_lines-render zero name fs body found h l = absurd (omega (arith, l))
header_lines-render (suc fuel) name [] body found h l = end_of_header fuel name body found
header_lines-render (suc fuel) name (f ∷ fs) body found h l =
    let u = render fs ++ (crlf ++ body) in
    let joined = append_assoc (line_of f) (crlf ++ render fs) (crlf ++ body) in
    let found' = if is_named name f then note_value (f.1 ++ (crlf ++ u)) found else found in
    rw (joined, field-step fuel name f u found h.0)
      (header_lines-render fuel name fs body found' h.1 (omega (arith, l)))

render_length : (fs : List Field) → length fs ≤ length (render fs)
render_length [] = omega arith
render_length (f ∷ fs) =
    let n = render_length fs in
    let l = length-append (line_of f) (crlf ++ render fs) in omega (arith, l, n)

twice :
    (name : Text) (fs : List Field) (u v : Text) (dup : Bool)
    → found_in name fs u (some v, dup) ≡ (some v, dup || any_named name fs)
twice name [] u v dup = ground arith
twice name (f ∷ fs) u v dup = elim (Bool-cases (is_named name f)) [
  | inl p ↦ rw p (twice name fs u v true ∙ ap (λ b. (some v, b)) (ground arith))
  | inr p ↦ rw p (twice name fs u v dup)
]

-- The value of the first field with the name, with what stands behind it, and whether there is another one.
unfoldable pub field_of : Text → List Field → Text → Found
field_of name [] u = (none, false)
field_of name (f ∷ fs) u =
    if is_named name f
    then (some (f.1 ++ (crlf ++ (render fs ++ u))), any_named name fs)
    else field_of name fs u

found_in-field_of :
    (name : Text) (fs : List Field) (u : Text)
    → found_in name fs u (none, false) ≡ field_of name fs u
unfolding field_of
found_in-field_of name [] u = refl
found_in-field_of name (f ∷ fs) u = elim (Bool-cases (is_named name f)) [
  | inl p ↦ rw p (twice name fs u _ false)
  | inr p ↦ rw p (found_in-field_of name fs u)
]

-- In a header of a status line and fields, each on one line, with no colon in its name and no blank at the start
-- of its value, the value of the first field with the name that is looked for is found, whatever its case, and
-- whether another field has this name.
pub ota_get_header_value_lem :
    (status name : Text) (fs : List Field) (body : Text)
    → Lacks 13 status
    → All IsField fs
    → ota_get_header_value (status ++ (crlf ++ (render fs ++ (crlf ++ body)))) name
      ≡ field_of name fs (crlf ++ body)
unfolding ota_get_header_value
ota_get_header_value_lem status name fs body h k =
    let u = render fs ++ (crlf ++ body) in
    let line_end = find-append 13 (10 ∷ []) status u h in
    let rest = drop_both status crlf u (length status + 2) refl in
    let l = length-append status (crlf ++ u) in
    let n = length-append (render fs) (crlf ++ body) in
    let enough : length fs < length (status ++ (crlf ++ u)) =
      omega (arith, l, n, render_length fs) in
    rw (ota_get_header_value, line_end, rest)
      (header_lines-render _ name fs body (none, false) k enough ∙ found_in-field_of name fs _)

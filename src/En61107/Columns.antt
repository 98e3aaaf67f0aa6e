-- ===== src/En61107/Columns.antt =====
-- The parsers of the standard data and of the instantaneous values of user/en61107/en61107.c on lines of
-- columns.
use meter_logger.Prelude.{
  ℕ, suc, ◌-◌, ◌≤◌, ◌≡◌, ◌≢◌, refl, ap, ◌∙◌, append_assoc, append-nil, List, [], ◌∷◌, ◌++◌, length,
  length-take, All, All-append, arith,
}
use meter_logger.Prelude.Text.{Text, codes}
use meter_logger.Prelude.Search.{c_string, c_string-append, tokens, end_token, Lacks}
use meter_logger.En61107.{Formats, En61107Response, value_l}
use meter_logger.En61107.Bounds.{AllFit}
use meter_logger.En61107.Standard.{
  Scanned, printed, standard_data_1, inst_values, each_token, parse_mc66cde_standard_data_1_frame,
  parse_mc66cde_standard_data_2_frame, parse_mc66cde_inst_values_frame,
}

-- A column is not empty, and has no blank and no NUL.
abbrev pub IsColumn : Text → Type 0
IsColumn t = (1 ≤ length t) × Lacks 32 t × Lacks 0 t

-- The columns, each with a blank behind it.
abbrev pub columns : List Text → Text
columns [] = []
columns (t ∷ ts) = t ++ 32 ∷ columns ts

tokens-column :
    (t c rest : Text)
    → Lacks 32 c
    → tokens 32 t (c ++ 32 ∷ rest) ≡ end_token (t ++ c) (tokens 32 [] rest)
unfolding tokens
tokens-column t [] rest h = rw (append-nil t) refl
tokens-column t (x ∷ c) rest h =
    let ih = tokens-column (t ++ x ∷ []) c rest h.1 in
    let all = append_assoc t (x ∷ []) c in rw (← all) (ground (arith, ih, h.0))

tokens-columns : (ts : List Text) → All IsColumn ts → tokens 32 [] (columns ts) ≡ ts
unfolding tokens
tokens-columns [] h = refl
tokens-columns ([] ∷ ts) h = absurd (omega (arith, h.0.0))
tokens-columns ((x ∷ t) ∷ ts) h =
    tokens-column [] (x ∷ t) (columns ts) h.0.1 ∙ ap (λ r. (x ∷ t) ∷ r) (tokens-columns ts h.1)

columns_lack : (ts : List Text) → All IsColumn ts → Lacks 0 (columns ts)
columns_lack [] h = _
columns_lack (t ∷ ts) h =
    All-append (λ c. c ≢ 0) t (32 ∷ columns ts) h.0.2 ((λ e. omega arith), columns_lack ts h.1)

-- What `strtok` gives for the columns in a buffer behind which there is a NUL.
tokens-buffer :
    (ts : List Text) (rest : List ℕ)
    → All IsColumn ts
    → tokens 32 [] (c_string (columns ts ++ 0 ∷ rest)) ≡ ts
unfolding c_string
tokens-buffer ts rest h =
    rw (c_string-append (columns ts) (0 ∷ rest) (columns_lack ts h), append-nil (columns ts))
      (tokens-columns ts h)

-- The columns from number 8 on change nothing.
standard_data_1-later :
    (f : Formats) (i : ℕ) (ts : List Text) (s : Scanned)
    → 8 ≤ i
    → each_token (standard_data_1 f) i ts s ≡ s
unfolding each_token standard_data_1
standard_data_1-later f i [] s h = refl
standard_data_1-later f i (t ∷ ts) s h =
    let here : standard_data_1 f i t s ≡ s = ground arith in
    rw here (standard_data_1-later f (suc i) ts s (omega arith))

-- The temperatures, the effect and the flow are read from the columns 3 to 7, scaled as the meter sends
-- them; a column that is no number repeats the one before. The rest of the response is as it was.
pub parse_mc66cde_standard_data_1_frame_lem :
    (f : Formats) (word : ℕ) (r : En61107Response) (p0 p1 p2 p3 p4 p5 p6 p7 : Text) (ts : List Text)
    (rest : List ℕ)
    → All IsColumn (p0 ∷ p1 ∷ p2 ∷ p3 ∷ p4 ∷ p5 ∷ p6 ∷ p7 ∷ ts)
    → let line = columns (p0 ∷ p1 ∷ p2 ∷ p3 ∷ p4 ∷ p5 ∷ p6 ∷ p7 ∷ ts) in
      let w3 = f.scan_float p3 word in
      let w4 = f.scan_float p4 w3 in
      let w5 = f.scan_float p5 w4 in
      let w6 = f.scan_float p6 w5 in
      let w7 = f.scan_float p7 w6 in
      parse_mc66cde_standard_data_1_frame f word r (line ++ 0 ∷ rest) ≡ record r {
        t1 = printed (f.print_quotient 2 100 w3) (codes "C");
        t2 = printed (f.print_quotient 2 100 w4) (codes "C");
        tdif = printed (f.print_quotient 2 100 w5) (codes "C");
        effect1 = printed (f.print_quotient 3 10 w6) (codes "kW");
        flow1 = printed (f.print_int w7) (codes "l/h");
      }
unfolding parse_mc66cde_standard_data_1_frame each_token standard_data_1
parse_mc66cde_standard_data_1_frame_lem f word r p0 p1 p2 p3 p4 p5 p6 p7 ts rest h =
    let all = p0 ∷ p1 ∷ p2 ∷ p3 ∷ p4 ∷ p5 ∷ p6 ∷ p7 ∷ ts in
    rw (parse_mc66cde_standard_data_1_frame, tokens-buffer all rest h)
      (ap (λ s. s.response) (standard_data_1-later f 8 ts _ (omega arith)))

each_token-AllFit :
    (step : ℕ → Text → Scanned → Scanned) (i : ℕ) (ts : List Text) (s : Scanned)
    → ((i : ℕ) (t : Text) (s : Scanned) → AllFit s.response → AllFit (step i t s).response)
    → AllFit s.response
    → AllFit (each_token step i ts s).response
unfolding each_token
each_token-AllFit step i [] s g h = h
each_token-AllFit step i (t ∷ ts) s g h =
    each_token-AllFit step (suc i) ts (step i t s) g (g i t s h)

standard_data_1-AllFit :
    (f : Formats) (i : ℕ) (t : Text) (s : Scanned)
    → AllFit s.response
    → AllFit (standard_data_1 f i t s).response
unfolding standard_data_1
standard_data_1-AllFit f i t s h =
    let word = f.scan_float t s.value in
    let size = λ (x : Text). length-take (value_l - 1) x in
    ground (
      arith,
      h,
      size (f.print_quotient 2 100 word),
      size (f.print_quotient 3 10 word),
      size (f.print_int word),
    )

inst_values-AllFit :
    (f : Formats) (i : ℕ) (t : Text) (s : Scanned)
    → AllFit s.response
    → AllFit (inst_values f i t s).response
unfolding inst_values
inst_values-AllFit f i t s h =
    let size = length-take (value_l - 1) (f.print_quotient 3 100 (f.scan_float t s.value)) in
    ground (arith, h, size)

-- Whatever a line holds, the three parsers of lines stay within the arrays of the response.
pub standard_data-AllFit :
    (f : Formats) (word : ℕ) (r : En61107Response) (frame : List ℕ)
    → AllFit r
    → AllFit (parse_mc66cde_standard_data_1_frame f word r frame)
      × AllFit (parse_mc66cde_standard_data_2_frame r frame)
      × AllFit (parse_mc66cde_inst_values_frame f word r frame)
unfolding parse_mc66cde_standard_data_1_frame parse_mc66cde_standard_data_2_frame
    parse_mc66cde_inst_values_frame
standard_data-AllFit f word r frame h =
    let s : Scanned = record { response = r; value = word } in
    let ts = tokens 32 [] (c_string frame) in
    (
      each_token-AllFit (standard_data_1 f) 0 ts s (standard_data_1-AllFit f) h,
      ground (arith, h),
      each_token-AllFit (inst_values f) 0 ts s (inst_values-AllFit f) h,
    )

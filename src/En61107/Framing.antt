-- ===== src/En61107/Framing.antt =====
-- The frame of a telegram for `parse_en61107_frame` of user/en61107/en61107.c: STX, the body, ETX and the
-- check sum.
use meter_logger.Prelude.{
  ℕ, ◌+◌, ◌-◌, ◌%◌, ◌≡◌, ◌≢◌, refl, sym, ap, ◌∙◌, append_assoc, false, if◌then◌else◌, ◌==◌, some,
  List, [], ◌∷◌, ◌++◌, length, length-append, take, take-append, get_or, get_or-append_right, arith,
}
use meter_logger.Prelude.Text.{Text}
use meter_logger.Prelude.Search.{c_string, c_string-append, find, find-append, Lacks}
use meter_logger.En61107.{Formats, err_bcc_mismatch, En61107Response}
use meter_logger.En61107.Telegram.{parse_body, parse_en61107_frame}
use meter_logger.En61107.Bcc.{bcc_of, bcc_of-differs, check_bcc-telegram}

abbrev pub framed : List ℕ → List ℕ → ℕ → List ℕ → List ℕ
framed pre body bcc rest = pre ++ (2 ∷ (body ++ (3 ∷ bcc ∷ rest)))

-- The number of bytes up to the check sum.
abbrev pub framed_length : List ℕ → List ℕ → ℕ
framed_length pre body = length pre + length body + 3

framed_split :
    (pre body : List ℕ) (bcc : ℕ) (rest : List ℕ)
    → framed pre body bcc rest ≡ (pre ++ (2 ∷ (body ++ (3 ∷ [])))) ++ bcc ∷ rest
framed_split pre body bcc rest =
    ap (λ t. pre ++ (2 ∷ t)) (sym (append_assoc body (3 ∷ []) (bcc ∷ rest)))
    ∙ sym (append_assoc pre (2 ∷ (body ++ (3 ∷ []))) (bcc ∷ rest))

length-front :
    (pre body : List ℕ) → length (pre ++ (2 ∷ (body ++ (3 ∷ [])))) + 1 ≡ framed_length pre body
length-front pre body =
    omega (arith, length-append pre (2 ∷ (body ++ (3 ∷ []))), length-append body (3 ∷ []))

-- The byte of the check sum is the last one of the frame.
last-framed :
    (pre body : List ℕ) (bcc : ℕ) (rest : List ℕ)
    → get_or (framed pre body bcc rest) (framed_length pre body - 1) 0 ≡ bcc
last-framed pre body bcc rest =
    ap (λ t. get_or t (framed_length pre body - 1) 0) (framed_split pre body bcc rest)
    ∙ get_or-append_right (pre ++ (2 ∷ (body ++ (3 ∷ [])))) (bcc ∷ rest)
        (framed_length pre body - 1) 0 0 (omega (arith, length-front pre body))

take-framed :
    (pre body : List ℕ) (bcc : ℕ) (rest : List ℕ)
    → take (framed_length pre body) (framed pre body bcc rest) ≡ framed pre body bcc []
take-framed pre body bcc rest =
    let front = pre ++ (2 ∷ (body ++ (3 ∷ []))) in
    ap (take (framed_length pre body))
      (framed_split pre body bcc rest ∙ sym (append_assoc front (bcc ∷ []) rest))
    ∙ take-append (front ++ bcc ∷ []) rest (framed_length pre body)
        (omega (arith, length-front pre body, length-append front (bcc ∷ [])))
    ∙ sym (framed_split pre body bcc [])

find-framed :
    (pre body : List ℕ) (bcc : ℕ) (rest : List ℕ)
    → Lacks 0 pre
    → Lacks 2 pre
    → find (2 ∷ []) (c_string (framed pre body bcc rest)) ≡ some (length pre)
unfolding c_string
find-framed pre body bcc rest z h =
    rw (c_string-append pre (2 ∷ (body ++ (3 ∷ bcc ∷ rest))) z)
      (find-append 2 [] pre (c_string (body ++ (3 ∷ bcc ∷ rest))) h)

-- The conditions on what stands before STX and on the body.
pub record IsFramed (pre body : List ℕ) : Type 0 where
  pub pre_lacks : Lacks 0 pre × Lacks 2 pre × Lacks 3 pre
  pub body_lacks : Lacks 2 body × Lacks 3 body

-- The check sum decides.
pub parse_en61107_frame-framed :
    (f : Formats) (rid : Text) (word : ℕ) (r : En61107Response) (pre body : List ℕ) (bcc : ℕ)
    (rest : List ℕ)
    → IsFramed pre body
    → parse_en61107_frame f rid word r (framed pre body bcc rest) (framed_length pre body) ≡ (
        if bcc % 128 == bcc_of body
        then parse_body f rid word r (framed pre body bcc rest)
        else (err_bcc_mismatch, r))
unfolding parse_en61107_frame
parse_en61107_frame-framed f rid word r pre body bcc rest h =
    let some_bytes : (framed_length pre body == 0) ≡ false = ground arith in
    rw
      (
        parse_en61107_frame,
        some_bytes,
        find-framed pre body bcc rest h.pre_lacks.0 h.pre_lacks.1,
        last-framed pre body bcc rest,
        take-framed pre body bcc rest,
        check_bcc-telegram (bcc % 128) 0 pre body (bcc ∷ []) h.pre_lacks.2 h.body_lacks.0
            h.body_lacks.1,
      )
      refl

-- A telegram of which one byte of the body was changed in its low seven bits, into a byte that is neither STX
-- nor ETX, so that the telegram is framed as before, is refused with a check sum error, and the response is left as it was.
pub parse_en61107_frame-damaged :
    (f : Formats) (rid : Text) (word : ℕ) (r : En61107Response) (pre xs ys : List ℕ) (x y bcc : ℕ)
    (rest : List ℕ)
    → IsFramed pre (xs ++ x ∷ ys)
    → IsFramed pre (xs ++ y ∷ ys)
    → x % 128 ≢ y % 128
    → bcc % 128 ≡ bcc_of (xs ++ x ∷ ys)
    → parse_en61107_frame f rid word r
        (framed pre (xs ++ y ∷ ys) bcc rest)
        (framed_length pre (xs ++ y ∷ ys))
      ≡ (err_bcc_mismatch, r)
parse_en61107_frame-damaged f rid word r pre xs ys x y bcc rest h k d e =
    let differs : (bcc % 128 == bcc_of (xs ++ y ∷ ys)) ≡ false =
      ground (arith, e, bcc_of-differs xs ys x y d) in
    rw (parse_en61107_frame-framed f rid word r pre (xs ++ y ∷ ys) bcc rest k, differs) refl

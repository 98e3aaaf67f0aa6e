-- ===== src/En61107/Bcc.antt =====
-- The check sum of the telegrams, `parse_en61107_frame` of user/en61107/en61107.c.
use meter_logger.Prelude.{ℕ, ◌+◌, ◌%◌, ◌≡◌, ◌≢◌, ap, ◌∙◌, some, List, [], ◌∷◌, ◌++◌, ◌==◌, arith}
use meter_logger.Prelude.Search.{Lacks}
use meter_logger.En61107.Telegram.{check_bcc}

-- The sum of the bytes.
unfoldable pub sum : List ℕ → ℕ
sum [] = 0
sum (x ∷ xs) = x + sum xs

sum-append : (xs ys : List ℕ) → sum (xs ++ ys) ≡ sum xs + sum ys
unfolding sum
sum-append [] ys = omega arith
sum-append (x ∷ xs) ys = omega (arith, sum-append xs ys)

-- What the sender of a telegram counts: the bytes behind STX up to and with ETX, on seven bits.
abbrev pub bcc_of : List ℕ → ℕ
bcc_of body = (sum body + 3) % 128

check_bcc-body :
    (bcc c : ℕ) (body rest : List ℕ)
    → Lacks 2 body
    → Lacks 3 body
    → check_bcc bcc c (body ++ 3 ∷ rest) ≡ some (bcc == (c + sum body + 3) % 128)
unfolding check_bcc sum
check_bcc-body bcc c [] rest h k = ap (λ n. some (bcc == n)) (omega arith)
check_bcc-body bcc c (x ∷ body) rest h k =
    let ih = check_bcc-body bcc ((c + x) % 128) body rest h.1 k.1 in
    let same : ((c + x) % 128 + sum body + 3) % 128 ≡ (c + (x + sum body) + 3) % 128 =
      omega arith in
    rw (ih, same) (ground (arith, h.0, k.0))

-- The scan of a telegram.
pub check_bcc-telegram :
    (bcc c : ℕ) (pre body rest : List ℕ)
    → Lacks 3 pre
    → Lacks 2 body
    → Lacks 3 body
    → check_bcc bcc c (pre ++ 2 ∷ (body ++ 3 ∷ rest)) ≡ some (bcc == bcc_of body)
unfolding check_bcc
check_bcc-telegram bcc c [] body rest g h k =
    let whole : (0 + sum body + 3) % 128 ≡ bcc_of body = omega arith in
    check_bcc-body bcc 0 body rest h k ∙ ap (λ n. some (bcc == n)) whole
check_bcc-telegram bcc c (x ∷ pre) body rest g h k =
    let ih = λ (c : ℕ). check_bcc-telegram bcc c pre body rest g.1 h k in
    rw (ih 0, ih ((c + x) % 128)) (ground (arith, g.0))

-- A byte that differs on seven bits changes the sum.
pub bcc_of-differs :
    (xs ys : List ℕ) (x y : ℕ) → x % 128 ≢ y % 128 → bcc_of (xs ++ x ∷ ys) ≢ bcc_of (xs ++ y ∷ ys)
unfolding sum
bcc_of-differs xs ys x y h e = h (omega (arith, e, sum-append xs (x ∷ ys), sum-append xs (y ∷ ys)))

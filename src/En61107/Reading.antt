-- ===== src/En61107/Reading.antt =====
-- `parse_en61107_frame` of user/en61107/en61107.c on whole telegrams.
use Prim.Native.Nat.{min}
use meter_logger.Prelude.{
  ℕ, zero, suc, ◌+◌, ◌-◌, ◌≤◌, ◌<◌, ◌≡◌, ◌≢◌, refl, sym, ap, ◌∙◌, append_assoc, List, [], ◌∷◌, ◌++◌,
  length, length-append, take-append, take_all, drop, drop-append, All, All-append, All-weaken,
  arith,
}
use meter_logger.Prelude.Text.{Text}
use meter_logger.Prelude.Search.{c_string, c_string-append, find-append, find-Lacks, Lacks}
use meter_logger.En61107.{Formats, register_l, en61107_frame_l}
use meter_logger.En61107.Telegram.{Parsed, separator, parse_registers, parse_list, register_list}
use meter_logger.En61107.Parsing.{Entry, written, IsEntry, store, parse_register-written}

-- A printable character but `!`.
abbrev pub IsPlain : ℕ → Type 0
IsPlain c = (32 ≤ c) × (c ≢ 33)

abbrev pub IsLine : Entry → Type 0
IsLine e = IsEntry e × All IsPlain (written e)

-- The registers on lines, the last one without an end.
abbrev pub joined : List Entry → Entry → Text
joined [] last = written last
joined (e ∷ es) last = written e ++ (separator ++ joined es last)

abbrev pub stores : Formats → List Entry → Parsed → Parsed
stores f [] p = p
stores f (e ∷ es) p = stores f es (store f e p)

-- What holds for printable characters and the separator holds for all characters of the list.
pub joined-All :
    (P : ℕ → Type 0) (es : List Entry) (last : Entry)
    → ((c : ℕ) → IsPlain c → P c)
    → P 13
    → P 10
    → All IsLine es
    → IsLine last
    → All P (joined es last)
joined-All P [] last g a b h l = All-weaken IsPlain P (written last) g l.1
joined-All P (e ∷ es) last g a b h l =
    let rest = joined-All P es last g a b h.1 l in
    All-append P (written e) (separator ++ joined es last)
      (All-weaken IsPlain P (written e) g h.0.1) (a, (b, rest))

length-written : (e : Entry) → IsLine e → length (written e) < register_l
length-written (Entry.valued rid value unit) h = h.0.1
length-written (Entry.customer rid number) h = h.0.1

length-joined :
    (e : Entry) (es : List Entry) (last : Entry)
    → length (joined (e ∷ es) last) ≡ length (written e) + 2 + length (joined es last)
length-joined e es last = omega (
  arith,
  length-append (written e) (separator ++ joined es last),
  length-append separator (joined es last),
)

drop-line : (xs ys : Text) → drop (length xs + 2) (xs ++ (separator ++ ys)) ≡ ys
drop-line xs ys =
    ap (drop (length xs + 2)) (sym (append_assoc xs separator ys))
    ∙ drop-append (xs ++ separator) ys (length xs + 2) (length-append xs separator)

parse_registers-joined :
    (fuel : ℕ) (f : Formats) (es : List Entry) (last : Entry) (p : Parsed)
    → length (joined es last) ≤ fuel
    → All IsLine es
    → IsLine last
    → parse_registers fuel f (joined es last) p ≡ (written last, stores f es p)
unfolding parse_registers
parse_registers-joined zero f [] last p h a b = refl
parse_registers-joined zero f (e ∷ es) last p h a b =
    absurd (omega (arith, h, length-joined e es last))
parse_registers-joined (suc fuel) f [] last p h a b =
    let lacks = All-weaken IsPlain (λ c. c ≢ 13) (written last) (λ c q. omega (arith, q)) b.1 in
    rw (parse_registers, find-Lacks 13 (10 ∷ []) (written last) lacks) refl
parse_registers-joined (suc fuel) f (e ∷ es) last p h a b =
    let lacks = All-weaken IsPlain (λ c. c ≢ 13) (written e) (λ c q. omega (arith, q)) a.0.1 in
    let rest = joined es last in
    let short = length-written e a.0 in
    let n : min (length (written e)) (register_l - 1) ≡ length (written e) = omega arith in
    let here = take-append (written e) (separator ++ rest) (length (written e)) refl in
    let there = drop-line (written e) rest in
    let enough : length rest ≤ fuel = omega (arith, h, length-joined e es last) in
    let ih = parse_registers-joined fuel f es last (store f e p) enough a.1 b in
    rw
      (
        parse_registers,
        find-append 13 (10 ∷ []) (written e) rest lacks,
        n,
        here,
        there,
        parse_register-written f e p a.0.0,
      )
      ih

pub parse_list-joined :
    (f : Formats) (es : List Entry) (last : Entry) (p : Parsed)
    → All IsLine es
    → IsLine last
    → parse_list f (joined es last) p ≡ store f last (stores f es p)
unfolding parse_list
parse_list-joined f es last p a b =
    let loop = parse_registers-joined (length (joined es last)) f es last p (omega arith) a b in
    let short = length-written last b in
    let n : min (length (written last)) (register_l - 1) ≡ length (written last) = omega arith in
    let whole = take_all (written last) (length (written last)) (omega arith) in
    rw (loop, n, whole) (parse_register-written f last (stores f es p) b.0)

abbrev pub list_end : Text
list_end = 33 ∷ 13 ∷ 10 ∷ 3 ∷ []

-- The list is found up to its end.
pub register_list-joined :
    (xs : Text) (rest : List ℕ)
    → Lacks 0 xs
    → Lacks 33 xs
    → length xs < en61107_frame_l
    → register_list (xs ++ (list_end ++ rest)) ≡ xs
unfolding register_list c_string
register_list-joined xs rest z l h =
    let s = c_string-append xs (list_end ++ rest) z in
    let n : min (length xs) (en61107_frame_l - 1) ≡ length xs = omega arith in
    let tail = 33 ∷ 13 ∷ 10 ∷ 3 ∷ c_string rest in
    rw (register_list, s, find-append 33 (13 ∷ 10 ∷ 3 ∷ []) xs (c_string rest) l, n, s)
      (take-append xs tail (length xs) refl)

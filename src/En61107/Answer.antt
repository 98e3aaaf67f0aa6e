-- ===== src/En61107/Answer.antt =====
-- `parse_en61107_frame` of user/en61107/en61107.c on the whole telegram of a meter.
use meter_logger.Prelude.{
  ℕ, ◌+◌, ◌-◌, ◌%◌, ◌≤◌, ◌<◌, ◌≡◌, ◌≢◌, sym, ap, ◌∙◌, append_assoc, true, false, leb, ◌==◌, some,
  List, [], ◌∷◌, ◌++◌, length, length-append, take, take-append, drop, drop-append, All, All-append,
  All-weaken, arith,
}
use meter_logger.Prelude.Text.{Text}
use meter_logger.Prelude.Search.{c_string, c_string-append, find, find-append, Lacks}
use meter_logger.En61107.{Formats, ok, En61107Response, meter_type_l, en61107_frame_l}
use meter_logger.En61107.Telegram.{parse_body, parse_en61107_frame}
use meter_logger.En61107.Bcc.{bcc_of}
use meter_logger.En61107.Framing.{IsFramed, framed_length, parse_en61107_frame-framed}
use meter_logger.En61107.Parsing.{Entry, store}
use meter_logger.En61107.Reading.{
  IsPlain, IsLine, joined, joined-All, stores, parse_list-joined, list_end, register_list-joined,
}

-- What STX begins and ETX ends: two characters, the registers, and the end of the list.
abbrev pub body_of : ℕ → ℕ → List Entry → Entry → List ℕ
body_of a b es last = a ∷ b ∷ (joined es last ++ (33 ∷ 13 ∷ 10 ∷ []))

-- A telegram with what follows it in the array.
abbrev pub telegram : Text → ℕ → ℕ → List Entry → Entry → ℕ → List ℕ → List ℕ
telegram meter a b es last bcc rest =
    (47 ∷ (meter ++ (13 ∷ 10 ∷ []))) ++ (2 ∷ (body_of a b es last ++ (3 ∷ bcc ∷ rest)))

-- The conditions on its parts.
pub record IsTelegram (meter : Text) (a b : ℕ) (es : List Entry) (last : Entry) : Type 0 where
  pub meter_fits : (1 ≤ length meter) × (length meter < meter_type_l)
  pub meter_plain : All IsPlain meter
  pub after_stx : (4 ≤ a) × (4 ≤ b)
  pub lines : All IsLine es
  pub last_line : IsLine last
  pub list_fits : length (joined es last) < en61107_frame_l

-- The characters of the telegram before ETX but for STX are not control characters below 4.
body_of-All :
    {meter : Text} {a b : ℕ} {es : List Entry} {last : Entry}
    → IsTelegram meter a b es last
    → All (λ c. 4 ≤ c) (body_of a b es last)
body_of-All {meter} {a} {b} {es} {last} h =
    let list =
      joined-All (λ c. 4 ≤ c) es last (λ c p. omega (arith, p)) (omega arith) (omega arith) h.lines
        h.last_line in
    let rest =
      All-append (λ c. 4 ≤ c) (joined es last) (33 ∷ 13 ∷ 10 ∷ []) list
        (omega arith, (omega arith, (omega arith, _))) in
    (h.after_stx.0, (h.after_stx.1, rest))

head-All : (meter : Text) → All IsPlain meter → All (λ c. 4 ≤ c) (47 ∷ (meter ++ (13 ∷ 10 ∷ [])))
head-All meter h =
    let m = All-weaken IsPlain (λ c. 4 ≤ c) meter (λ c p. omega (arith, p)) h in
    (omega arith, All-append (λ c. 4 ≤ c) meter (13 ∷ 10 ∷ []) m (omega arith, (omega arith, _)))

above-Lacks : (c : ℕ) (xs : List ℕ) → c < 4 → All (λ x. 4 ≤ x) xs → Lacks c xs
above-Lacks c xs h a = All-weaken (λ x. 4 ≤ x) (λ x. x ≢ c) xs (λ x p. omega arith) a

pub telegram-IsFramed :
    {meter : Text} {a b : ℕ} {es : List Entry} {last : Entry}
    → IsTelegram meter a b es last
    → IsFramed (47 ∷ (meter ++ (13 ∷ 10 ∷ []))) (body_of a b es last)
telegram-IsFramed {meter} {a} {b} {es} {last} h =
    let head = head-All meter h.meter_plain in
    let body = body_of-All h in
    let hd = 47 ∷ (meter ++ (13 ∷ 10 ∷ [])) in
    let bd = body_of a b es last in
    record {
      pre_lacks = (
        above-Lacks 0 hd (omega arith) head,
        above-Lacks 2 hd (omega arith) head,
        above-Lacks 3 hd (omega arith) head,
      );
      body_lacks = (above-Lacks 2 bd (omega arith) body, above-Lacks 3 bd (omega arith) body);
    }

-- STX is found behind the meter type.
find_stx :
    {meter : Text} {a b : ℕ} {es : List Entry} {last : Entry} (bcc : ℕ) (rest : List ℕ)
    → IsTelegram meter a b es last
    → find (2 ∷ []) (c_string (telegram meter a b es last bcc rest)) ≡ some (length meter + 3)
unfolding c_string
find_stx {meter} {a} {b} {es} {last} bcc rest h =
    let head = head-All meter h.meter_plain in
    let hd = 47 ∷ (meter ++ (13 ∷ 10 ∷ [])) in
    let tail = c_string (body_of a b es last ++ (3 ∷ bcc ∷ rest)) in
    let s =
      c_string-append hd (2 ∷ (body_of a b es last ++ (3 ∷ bcc ∷ rest)))
        (above-Lacks 0 hd (omega arith) head) in
    rw s (
      find-append 2 [] hd tail (above-Lacks 2 hd (omega arith) head)
      ∙ ap some (omega (arith, length-append meter (13 ∷ 10 ∷ []))))

-- The rest of a telegram from the registers on.
behind_stx :
    (meter : Text) (a b : ℕ) (es : List Entry) (last : Entry) (n bcc : ℕ) (rest : List ℕ)
    → n ≡ length meter + 6
    → drop n (telegram meter a b es last bcc rest) ≡ joined es last ++ (list_end ++ bcc ∷ rest)
behind_stx meter a b es last n bcc rest e =
    let hd = 47 ∷ (meter ++ (13 ∷ 10 ∷ [])) in
    let ys = joined es last ++ (list_end ++ bcc ∷ rest) in
    let list = append_assoc (joined es last) (33 ∷ 13 ∷ 10 ∷ []) (3 ∷ bcc ∷ rest) in
    ap (drop n) (ap (λ t. hd ++ (2 ∷ a ∷ b ∷ t)) list ∙ sym (append_assoc hd (2 ∷ a ∷ b ∷ []) ys))
    ∙ drop-append (hd ++ (2 ∷ a ∷ b ∷ [])) ys n
        (omega (arith, length-append hd (2 ∷ a ∷ b ∷ []), length-append meter (13 ∷ 10 ∷ []), e))

leb_gt : (a b : ℕ) → b < a → leb a b ≡ false
leb_gt a b h = ground arith

take-head : (xs ys zs : List ℕ) (n : ℕ) → n ≡ length xs → take n ((xs ++ ys) ++ zs) ≡ xs
take-head xs ys zs n h = ap (take n) (append_assoc xs ys zs) ∙ take-append xs (ys ++ zs) n (sym h)

parse_body-telegram :
    {meter : Text} {a b : ℕ} {es : List Entry} {last : Entry} (f : Formats) (rid : Text) (word : ℕ)
    (r : En61107Response) (bcc : ℕ) (rest : List ℕ)
    → IsTelegram meter a b es last
    → parse_body f rid word r (telegram meter a b es last bcc rest) ≡ (
      ok,
      (store f last (
          stores f es (record {
            response = record r { meter_type = meter };
            rid = rid;
            rid_value_unit = word;
          }))).response,
    )
unfolding parse_body
parse_body-telegram {meter} {a} {b} {es} {last} f rid word r bcc rest h =
    let t = telegram meter a b es last bcc rest in
    let n = length meter + 3 in
    let type : take (n - 3) (drop 1 t) ≡ meter =
      take-head meter (13 ∷ 10 ∷ []) (2 ∷ (body_of a b es last ++ (3 ∷ bcc ∷ rest))) (n - 3)
        (omega arith) in
    let list =
      joined-All (λ c. 4 ≤ c) es last (λ c p. omega (arith, p)) (omega arith) (omega arith) h.lines
        h.last_line in
    let unmarked =
      joined-All (λ c. c ≢ 33) es last (λ c p. p.1) (λ e. omega arith) (λ e. omega arith) h.lines
        h.last_line in
    let registers =
      register_list-joined (joined es last) (bcc ∷ rest)
        (above-Lacks 0 (joined es last) (omega arith) list) unmarked h.list_fits in
    let behind = behind_stx meter a b es last (n + 3) bcc rest (omega arith) in
    let low : leb n 3 ≡ false = leb_gt n 3 (omega (arith, h.meter_fits)) in
    let high : leb meter_type_l (n - 3) ≡ false =
      leb_gt meter_type_l (n - 3) (omega (arith, h.meter_fits)) in
    rw (parse_body, find_stx bcc rest h, low, high, type, behind, registers)
      (ap (λ p. (ok, p.response)) (parse_list-joined f es last _ h.lines h.last_line))

-- A telegram with its check sum is accepted, whatever follows it in the array. In the order of its registers, the value
-- as it is printed, cut to 9 characters, and the unit, cut to 4, of 6.8 are stored as the energy, of 6.26 as the
-- volume and of 6.31 as the hours, and the customer number, cut to its array, is stored; the response has the meter
-- type, and all else in it is as it was.
pub parse_en61107_frame-telegram :
    (meter : Text) (a b : ℕ) (es : List Entry) (last : Entry) (f : Formats) (rid : Text) (word : ℕ)
    (r : En61107Response) (bcc : ℕ) (rest : List ℕ)
    → IsTelegram meter a b es last
    → bcc % 128 ≡ bcc_of (body_of a b es last)
    → parse_en61107_frame f rid word r
        (telegram meter a b es last bcc rest)
        (length meter + length (body_of a b es last) + 6)
      ≡ (
        ok,
        (store f last (
            stores f es (record {
              response = record r { meter_type = meter };
              rid = rid;
              rid_value_unit = word;
            }))).response,
      )
parse_en61107_frame-telegram meter a b es last f rid word r bcc rest h e =
    let hd = 47 ∷ (meter ++ (13 ∷ 10 ∷ [])) in
    let bd = body_of a b es last in
    let agrees : (bcc % 128 == bcc_of bd) ≡ true = ground arith in
    let size : length meter + length bd + 6 ≡ framed_length hd bd =
      omega (arith, length-append meter (13 ∷ 10 ∷ [])) in
    rw (size, parse_en61107_frame-framed f rid word r hd bd bcc rest (telegram-IsFramed h), agrees)
      (parse_body-telegram f rid word r bcc rest h)

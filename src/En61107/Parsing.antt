-- ===== src/En61107/Parsing.antt =====
-- What `parse_en61107_frame` of user/en61107/en61107.c reads from a telegram as the meter sends it.
use Prim.Native.Nat.{min}
use meter_logger.Prelude.{
  Bool-cases, inl, inr, if◌then◌else◌, take-take, ℕ, zero, suc, ◌+◌, ◌-◌, ◌<◌, ◌≡◌, ◌≢◌, refl, sym,
  ap, ◌∙◌, append_assoc, true, false, [], ◌∷◌, ◌++◌, length, length-append, take, take-append, drop,
  drop-append, All-append, arith,
}
use meter_logger.Prelude.Text.{Text, codes, text_eq, text_eq_iff}
use meter_logger.Prelude.Search.{starts_with, find-append, find-Lacks, Lacks}
use meter_logger.En61107.{
  En61107Response, En61107Register, Formats, register_l, rid_l, value_l, customer_no_l,
  en61107_response_set_value, en61107_response_set_unit,
}
use meter_logger.En61107.Telegram.{Parsed, parse_rid, parse_value, parse_unit, parse_register}

-- A register with its number, value and unit, or the customer number.
pub data Entry : Type 0 where
  valued : Text → Text → Text → Entry
  customer : Text → Text → Entry

-- `rid(value*unit)` and `rid(number)`
abbrev pub written : Entry → Text
written (valued rid value unit) =
    rid ++ (40 ∷ [] ++ (value ++ (42 ∷ [] ++ (unit ++ (41 ∷ [] ++ [])))))
written (customer rid number) = rid ++ (40 ∷ [] ++ (number ++ (41 ∷ [] ++ [])))

-- The parts fit their arrays, and hold no mark that ends them; the number of the customer's register
-- begins with 0, the others' does not.
abbrev pub IsEntry : Entry → Type 0
IsEntry (valued rid value unit) =
    (length rid < rid_l)
    × (length (written (valued rid value unit)) < register_l)
    × (starts_with (codes "0") rid ≡ false)
    × Lacks 40 rid
    × Lacks 42 value
    × Lacks 41 unit
IsEntry (customer rid number) =
    (length rid < rid_l)
    × (length (written (customer rid number)) < register_l)
    × (starts_with (codes "0") rid ≡ true)
    × Lacks 40 rid
    × Lacks 42 number
    × Lacks 41 number

-- What a number, a value and a unit mean: 6.8 is the energy, 6.26 the volume, and 6.31 the hours, each with the value
-- cut to 9 and the unit to 4 characters; all other quantities stay.
abbrev pub meaning : Text → Text → Text → En61107Response → En61107Response
meaning rid value unit r =
    let reading : En61107Register = record { value = take 9 value; unit = take 4 unit } in
    record r {
      e1 = if text_eq rid (codes "6.8") then reading else r.e1;
      v1 = if text_eq rid (codes "6.26") then reading else r.v1;
      hr = if text_eq rid (codes "6.31") then reading else r.hr;
    }

-- The setters together store what is meant.
set_meaning :
    (rid value unit : Text) (r : En61107Response)
    → en61107_response_set_unit rid unit
        (en61107_response_set_value rid (take (value_l - 1) value) r)
      ≡ meaning rid value unit r
unfolding en61107_response_set_value en61107_response_set_unit text_eq
set_meaning rid value unit r =
    let v : take 9 (take 9 (take 9 value)) ≡ take 9 value =
      take-take (take 9 value) 9 9 (omega arith) ∙ take-take value 9 9 (omega arith) in
    let u : take 4 (take 4 unit) ≡ take 4 unit = take-take unit 4 4 (omega arith) in
    elim (Bool-cases (text_eq rid (codes "6.8"))) [
      | inl is_e1 ↦ rw ((text_eq_iff rid (codes "6.8")).0 is_e1, v, u) refl
      | inr not_e1 ↦ elim (Bool-cases (text_eq rid (codes "6.26"))) [
        | inl is_v1 ↦ rw ((text_eq_iff rid (codes "6.26")).0 is_v1, v, u) refl
        | inr not_v1 ↦ elim (Bool-cases (text_eq rid (codes "6.31"))) [
          | inl is_hr ↦ rw ((text_eq_iff rid (codes "6.31")).0 is_hr, v, u) refl
          | inr not_hr ↦ rw (not_e1, not_v1, not_hr) refl
        ]
      ]
    ]

-- What an entry means: its number with the value as printed, and its unit.
abbrev pub store : Formats → Entry → Parsed → Parsed
store f (valued rid value unit) p =
    let word = f.scan_float (value ++ (42 ∷ [] ++ (unit ++ (41 ∷ [] ++ [])))) p.rid_value_unit in
    record {
      response = meaning rid (f.print_float word) unit p.response;
      rid = rid;
      rid_value_unit = word;
    }
store f (customer rid number) p = record p {
  rid = rid;
  response = record p.response { customer_no = take (customer_no_l - 1) number };
}

-- The pointer behind a mark that was found.
behind : (n : ℕ) (xs ys : Text) → drop (length xs + 1) (xs ++ (n ∷ [] ++ ys)) ≡ ys
behind n xs ys =
    ap (drop (length xs + 1)) (sym (append_assoc xs (n ∷ []) ys))
    ∙ drop-append (xs ++ n ∷ []) ys (length xs + 1) (length-append xs (n ∷ []))

parse_rid-at :
    (rid s : Text) (p : Parsed)
    → length rid < rid_l
    → Lacks 40 rid
    → parse_rid (rid ++ (40 ∷ [] ++ s)) p ≡ (s, record p { rid = rid })
unfolding parse_rid
parse_rid-at rid s p h l =
    let n : min (length rid) (rid_l - 1) ≡ length rid = omega arith in
    rw
      (
        parse_rid,
        find-append 40 [] rid s l,
        n,
        behind 40 rid s,
        take-append rid (40 ∷ s) (length rid) refl,
      )
      refl

parse_value-at :
    (f : Formats) (value s : Text) (p : Parsed)
    → Lacks 42 value
    → let t = value ++ (42 ∷ [] ++ s) in
      let word = f.scan_float t p.rid_value_unit in
      parse_value f t p ≡ (
        s,
        record p {
          rid_value_unit = word;
          response =
              en61107_response_set_value p.rid (take (value_l - 1) (f.print_float word)) p.response;
        },
      )
unfolding parse_value
parse_value-at f value s p l = rw (parse_value, find-append 42 [] value s l, behind 42 value s) refl

take_min : (xs ys : Text) (n : ℕ) → take (min (length xs) n) (xs ++ ys) ≡ take n xs
take_min [] ys zero = refl
take_min [] ys (suc n) = let none_left : min 0 (suc n) ≡ 0 = omega arith in rw none_left refl
take_min (x ∷ xs) ys zero =
    let none_left : min (suc (length xs)) 0 ≡ 0 = omega arith in rw none_left refl
take_min (x ∷ xs) ys (suc n) =
    let one_more : min (suc (length xs)) (suc n) ≡ suc (min (length xs) n) = omega arith in
    rw one_more (ap (λ t. x ∷ t) (take_min xs ys n))

parse_unit-customer :
    (number : Text) (p : Parsed)
    → length number < register_l
    → starts_with (codes "0") p.rid ≡ true
    → Lacks 41 number
    → parse_unit (number ++ (41 ∷ [] ++ [])) p
      ≡ record p { response = record p.response { customer_no = take (customer_no_l - 1) number } }
unfolding parse_unit
parse_unit-customer number p h z l =
    rw (parse_unit, find-append 41 [] number [] l, z, take_min number (41 ∷ []) (customer_no_l - 1))
      refl

parse_unit-unit :
    (unit : Text) (p : Parsed)
    → starts_with (codes "0") p.rid ≡ false
    → Lacks 41 unit
    → parse_unit (unit ++ (41 ∷ [] ++ [])) p
      ≡ record p { response = en61107_response_set_unit p.rid unit p.response }
unfolding parse_unit
parse_unit-unit unit p z l =
    rw (parse_unit, find-append 41 [] unit [] l, z, take-append unit (41 ∷ []) (length unit) refl)
      refl

-- Without the mark, the value is left.
parse_value-none : (f : Formats) (s : Text) (p : Parsed) → Lacks 42 s → parse_value f s p ≡ (s, p)
unfolding parse_value
parse_value-none f s p l = rw (parse_value, find-Lacks 42 [] s l) refl

pub parse_register-written :
    (f : Formats) (e : Entry) (p : Parsed)
    → IsEntry e
    → parse_register f (written e) p ≡ store f e p
unfolding parse_register
parse_register-written f (valued rid value unit) p h =
    let rest = unit ++ (41 ∷ [] ++ []) in
    rw
      (
        parse_rid-at rid (value ++ (42 ∷ [] ++ rest)) p h.0 h.3,
        parse_value-at f value rest (record p { rid = rid }) h.4,
      )
      (parse_unit-unit unit _ h.2 h.5
        ∙ ap
            (λ q. record {
              response = q;
              rid = rid;
              rid_value_unit = f.scan_float (value ++ (42 ∷ [] ++ rest)) p.rid_value_unit;
            })
            (set_meaning rid
              (f.print_float (f.scan_float (value ++ (42 ∷ [] ++ rest)) p.rid_value_unit)) unit
              p.response))
parse_register-written f (customer rid number) p h =
    let rest = number ++ (41 ∷ [] ++ []) in
    let lacks = All-append (λ x. x ≢ 42) number (41 ∷ []) h.4 ((λ e. omega arith), _) in
    let short : length number < register_l = omega (
      arith,
      h.1,
      length-append rid (40 ∷ [] ++ rest),
      length-append (40 ∷ []) rest,
      length-append number (41 ∷ []),
    ) in
    rw (parse_rid-at rid rest p h.0 h.3, parse_value-none f rest (record p { rid = rid }) lacks)
      (parse_unit-customer number _ short h.2 h.5)

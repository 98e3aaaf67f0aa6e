-- ===== src/En61107/Bounds.antt =====
-- The loop of the parser ends, and the parsers of user/en61107/en61107.c stay within the arrays of the response.
use Prim.Native.Nat.{min}
use meter_logger.Prelude.{
  ℕ, zero, suc, ◌+◌, ◌-◌, ◌≤◌, ◌<◌, ◌≡◌, refl, Option-cases, inl, inr, none, List, [], ◌∷◌, length,
  length-take, length-drop, take, drop, arith,
}
use meter_logger.Prelude.Text.{Text, codes}
use meter_logger.Prelude.Search.{c_string, find, find-lt}
use meter_logger.En61107.{
  Formats, En61107Register, En61107Response, register_l, value_l, unit_l, customer_no_l,
  meter_type_l, en61107_response_set_value, en61107_response_set_unit,
}
use meter_logger.En61107.Telegram.{
  Parsed, parse_rid, parse_value, parse_unit, parse_register, separator, parse_registers,
  parse_list, parse_body, parse_en61107_frame, register_list,
}

-- Each pass makes the list shorter: with as many passes as it has characters, the loop ends because no
-- separator is left, and more passes change nothing.
pub parse_registers-stops :
    (fuel : ℕ) (f : Formats) (s : Text) (p : Parsed)
    → length s ≤ fuel
    → (find separator (parse_registers fuel f s p).0 ≡ none)
      × (parse_registers (suc fuel) f s p ≡ parse_registers fuel f s p)
unfolding parse_registers find
parse_registers-stops zero f [] p h = (refl, refl)
parse_registers-stops zero f (c ∷ s) p h = absurd (omega arith)
parse_registers-stops (suc fuel) f s p h = elim (Option-cases (find separator s)) [
  | inl e ↦ rw (parse_registers, e) (e, refl)
  | inr q ↦
      (let pos = q.0 in
        let below = find-lt separator s pos q.1 in
        let n = min pos (register_l - 1) in
        let shorter : length (drop (n + 2) s) ≤ fuel = omega (arith, length-drop (n + 2) s) in
        let ih =
          parse_registers-stops fuel f (drop (n + 2) s) (parse_register f (take n s) p) shorter in
        rw (parse_registers, q.1) ih)
]

-- A register of the response is within its arrays.
pub record Fits (r : En61107Register) : Type 0 where
  pub value_fits : length r.value < value_l
  pub unit_fits : length r.unit < unit_l

-- All texts of the response, each with its NUL, are within their arrays.
pub record AllFit (r : En61107Response) : Type 0 where
  pub customer_no_fits : length r.customer_no < customer_no_l
  pub meter_type_fits : length r.meter_type < meter_type_l
  pub temperatures_fit : Fits r.t1 × Fits r.t2 × Fits r.t3 × Fits r.tdif
  pub flow_fits : Fits r.flow1 × Fits r.effect1
  pub counters_fit : Fits r.hr × Fits r.v1 × Fits r.e1

take_fits : (n m : ℕ) (s : Text) → n < m → length (take n s) < m
take_fits n m s h = omega (arith, length-take n s)

set_value_fits :
    (rid value : Text) (r : En61107Response)
    → AllFit r
    → AllFit (en61107_response_set_value rid value r)
unfolding en61107_response_set_value
set_value_fits rid value r h =
    let fits = take_fits (value_l - 1) value_l (take (value_l - 1) value) (omega arith) in
    ground (arith, h, fits)

set_unit_fits :
    (rid unit : Text) (r : En61107Response)
    → AllFit r
    → AllFit (en61107_response_set_unit rid unit r)
unfolding en61107_response_set_unit
set_unit_fits rid unit r h =
    let fits = take_fits (unit_l - 1) unit_l (take (unit_l - 1) unit) (omega arith) in
    ground (arith, h, fits)

parse_rid_fits : (s : Text) (p : Parsed) → AllFit p.response → AllFit (parse_rid s p).1.response
unfolding parse_rid
parse_rid_fits s p h = elim (Option-cases (find (codes "(") s)) [
  | inl e ↦ rw (parse_rid, e) h
  | inr q ↦ rw (parse_rid, q.1) h
]

parse_value_fits :
    (f : Formats) (s : Text) (p : Parsed)
    → AllFit p.response
    → AllFit (parse_value f s p).1.response
unfolding parse_value
parse_value_fits f s p h = elim (Option-cases (find (codes "*") s)) [
  | inl e ↦ rw (parse_value, e) h
  | inr q ↦ rw (parse_value, q.1) (set_value_fits p.rid _ p.response h)
]

parse_unit_fits : (s : Text) (p : Parsed) → AllFit p.response → AllFit (parse_unit s p).response
unfolding parse_unit
parse_unit_fits s p h = elim (Option-cases (find (codes ")") s)) [
  | inl e ↦ rw (parse_unit, e) h
  | inr q ↦
      (let pos = q.0 in
        let unit = set_unit_fits p.rid (take pos s) p.response h in
        let n = min pos (customer_no_l - 1) in
        let number = take_fits n customer_no_l s (omega arith) in
        rw (parse_unit, q.1) (ground (arith, h, unit, number)))
]

parse_register_fits :
    (f : Formats) (s : Text) (p : Parsed)
    → AllFit p.response
    → AllFit (parse_register f s p).response
unfolding parse_register
parse_register_fits f s p h =
    let q = parse_rid s p in
    let q' = parse_value f q.0 q.1 in
    parse_unit_fits q'.0 q'.1 (parse_value_fits f q.0 q.1 (parse_rid_fits s p h))

parse_registers_fits :
    (fuel : ℕ) (f : Formats) (s : Text) (p : Parsed)
    → AllFit p.response
    → AllFit (parse_registers fuel f s p).1.response
unfolding parse_registers
parse_registers_fits zero f s p h = h
parse_registers_fits (suc fuel) f s p h = elim (Option-cases (find separator s)) [
  | inl e ↦ rw (parse_registers, e) h
  | inr q ↦
      (let n = min q.0 (register_l - 1) in
        let ih =
          parse_registers_fits fuel f (drop (n + 2) s) (parse_register f (take n s) p)
            (parse_register_fits f (take n s) p h) in
        rw (parse_registers, q.1) ih)
]

parse_list_fits :
    (f : Formats) (s : Text) (p : Parsed) → AllFit p.response → AllFit (parse_list f s p).response
unfolding parse_list
parse_list_fits f s p h =
    let r = parse_registers (length s) f s p in
    parse_register_fits f (take (min (length r.0) (register_l - 1)) r.0) r.1
      (parse_registers_fits (length s) f s p h)

parse_body_fits :
    (f : Formats) (rid : Text) (word : ℕ) (r : En61107Response) (frame : List ℕ)
    → AllFit r
    → AllFit (parse_body f rid word r frame).1
unfolding parse_body
parse_body_fits f rid word r frame h = elim (Option-cases (find (2 ∷ []) (c_string frame))) [
  | inl e ↦
      rw (parse_body, e)
        (parse_list_fits f (register_list frame)
          (record { response = record r { meter_type = [] }; rid = rid; rid_value_unit = word })
          (ground (arith, h)))
  | inr q ↦
      (let n = q.0 in
        let type = take (n - 3) (drop 1 frame) in
        let size = length-take (n - 3) (drop 1 frame) in
        let cleared : AllFit (record r { meter_type = [] }) = ground (arith, h) in
        let typed : n - 3 < meter_type_l → AllFit (record r { meter_type = type }) =
          λ k. ground (arith, h, size, k) in
        let parsed = λ (k : n - 3 < meter_type_l).
          parse_list_fits f (register_list (drop (n + 3) frame))
            (record { response = record r { meter_type = type }; rid = rid; rid_value_unit = word })
            (typed k) in
        rw (parse_body, q.1) (ground (arith, cleared, parsed)))
]

-- Whatever bytes the telegram has, the response stays within its arrays.
pub parse_en61107_frame-AllFit :
    (f : Formats) (rid : Text) (word : ℕ) (r : En61107Response) (frame : List ℕ) (n : ℕ)
    → AllFit r
    → AllFit (parse_en61107_frame f rid word r frame n).1
unfolding parse_en61107_frame
parse_en61107_frame-AllFit f rid word r frame n h =
    ground (arith, h, parse_body_fits f rid word r frame h)

-- ===== src/En61107/Telegram.antt =====
-- `parse_en61107_frame` of user/en61107/en61107.c, in the build without MC_66B.
use Prim.Native.Nat.{min}
use meter_logger.Prelude.{
  ℕ, zero, suc, ◌+◌, ◌-◌, ◌%◌, Bool, ◌||◌, if◌then◌else◌, leb, ◌==◌, Option, none, some, List, [],
  ◌∷◌, length, take, drop, get_or,
}
use meter_logger.Prelude.Text.{Text, codes}
use meter_logger.Prelude.Search.{c_string, starts_with, find}
use meter_logger.En61107.{
  Formats, ParseResult, ok, err_empty_frame, err_no_stx, err_no_etx, err_bcc_mismatch,
  err_meter_type_bounds, En61107Response, register_l, rid_l, value_l, customer_no_l, meter_type_l,
  en61107_frame_l, en61107_response_set_value, en61107_response_set_unit,
}

-- The scan for the check sum: the first ETX decides, an STX starts the sum again. The answer is whether
-- the sum agrees with `bcc`, if there is an ETX.
unfoldable pub check_bcc : ℕ → ℕ → List ℕ → Option Bool
check_bcc bcc calculated [] = none
check_bcc bcc calculated (c ∷ rest) =
    let sum = (calculated + c) % 128 in
    let restarted = check_bcc bcc 0 rest in
    let added = check_bcc bcc sum rest in
    if c == 2 then restarted else if c == 3 then some (bcc == sum) else added

-- What the loop over the registers carries: the response, and the variables `rid` and
-- `rid_value_unit`, which the source does not initialise.
pub record Parsed : Type 0 where
  pub response : En61107Response
  pub rid : Text
  pub rid_value_unit : ℕ

-- `(`: the register's number, and the pointer behind it.
unfoldable pub parse_rid : Text → Parsed → Text × Parsed
parse_rid s p = elim (find (codes "(") s) [
  | none ↦ (s, p)
  | some pos ↦ (let n = min pos (rid_l - 1) in (drop (n + 1) s, record p { rid = take n s }))
]

-- `*`: the value.
unfoldable pub parse_value : Formats → Text → Parsed → Text × Parsed
parse_value f s p = elim (find (codes "*") s) [
  | none ↦ (s, p)
  | some pos ↦
      (let word = f.scan_float s p.rid_value_unit in
        let decimal_str = take (value_l - 1) (f.print_float word) in
        (
          drop (pos + 1) s,
          record p {
            rid_value_unit = word;
            response = en61107_response_set_value p.rid decimal_str p.response;
          },
        ))
]

-- `)`: the customer number or the unit.
unfoldable pub parse_unit : Text → Parsed → Parsed
parse_unit s p = elim (find (codes ")") s) [
  | none ↦ p
  | some pos ↦
      if starts_with (codes "0") p.rid
      then record p {
        response = record p.response { customer_no = take (min pos (customer_no_l - 1)) s };
      }
      else record p { response = en61107_response_set_unit p.rid (take pos s) p.response }
]

-- One register, which the source parses in the loop and once more behind it.
unfoldable pub parse_register : Formats → Text → Parsed → Parsed
parse_register f s p = let q = parse_rid s p in let q = parse_value f q.0 q.1 in parse_unit q.0 q.1

abbrev pub separator : Text
separator = 13 ∷ 10 ∷ []

-- The loop over the registers of the list, with `fuel` passes left: the rest of the list and what is
-- parsed.
unfoldable pub parse_registers : ℕ → Formats → Text → Parsed → Text × Parsed
parse_registers zero f s p = (s, p)
parse_registers (suc fuel) f s p = elim (find separator s) [
  | none ↦ (s, p)
  | some pos ↦
      (let n = min pos (register_l - 1) in
        parse_registers fuel f (drop (n + 2) s) (parse_register f (take n s) p))
]

-- The list of registers in the telegram from `frame` on, up to `!`.
unfoldable pub register_list : List ℕ → Text
register_list frame =
    let s = c_string frame in
    elim (find (33 ∷ 13 ∷ 10 ∷ 3 ∷ []) s) [
      | none ↦ []
      | some pos ↦ take (min pos (en61107_frame_l - 1)) s
    ]

-- The loop, with as many passes as the list has characters, and the last register.
unfoldable pub parse_list : Formats → Text → Parsed → Parsed
parse_list f s p =
    let r = parse_registers (length s) f s p in
    parse_register f (take (min (length r.0) (register_l - 1)) r.0) r.1

-- What follows a check sum that agrees. The response and `frame` behind STX and the two characters
-- after it.
unfoldable pub parse_body :
    Formats → Text → ℕ → En61107Response → List ℕ → ParseResult × En61107Response
parse_body f rid word r frame =
    let cleared : En61107Response = record r { meter_type = [] } in
    let parse = λ (r : En61107Response) (frame : List ℕ).
      (parse_list f (register_list frame)
        (record { response = r; rid = rid; rid_value_unit = word })).response in
    elim (find (2 ∷ []) (c_string frame)) [
      | none ↦ (ok, parse cleared frame)
      | some n ↦ if leb n 3 || leb meter_type_l (n - 3) then (err_meter_type_bounds, cleared) else (
        ok,
        parse (record cleared { meter_type = take (n - 3) (drop 1 frame) }) (drop (n + 3) frame),
      )
    ]

-- `parse_en61107_frame`, where `frame` is the array from the pointer on, and `rid` and `word` are what
-- stands in the variables at first.
unfoldable pub parse_en61107_frame :
    Formats → Text → ℕ → En61107Response → List ℕ → ℕ → ParseResult × En61107Response
parse_en61107_frame f rid word r frame frame_length =
    let bcc = get_or frame (frame_length - 1) 0 % 128 in
    let body = parse_body f rid word r frame in
    if frame_length == 0 then (err_empty_frame, r) else elim (find (2 ∷ []) (c_string frame)) [
      | none ↦ (err_no_stx, r)
      | some n ↦ elim (check_bcc bcc 0 (take frame_length frame)) [
        | none ↦ (err_no_etx, r)
        | some agrees ↦ if agrees then body else (err_bcc_mismatch, r)
      ]
    ]

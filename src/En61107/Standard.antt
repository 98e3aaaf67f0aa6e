-- ===== src/En61107/Standard.antt =====
-- The parsers of the standard data and of the instantaneous values, user/en61107/en61107.c.
use meter_logger.Prelude.{
  ℕ, suc, ◌-◌, ◌%◌, ◌^◌, ◌&&◌, if◌then◌else◌, leb, ◌==◌, List, [], ◌∷◌, length, take, drop,
}
use meter_logger.Prelude.Text.{Text, codes, atoi}
use meter_logger.Prelude.Search.{c_string, tokens}
use meter_logger.En61107.{Formats, En61107Register, MeterProgram, En61107Response, value_l}

-- The response and the variable `value`, a float that the source does not initialise.
pub record Scanned : Type 0 where
  pub response : En61107Response
  pub value : ℕ

-- `tfp_snprintf(response->....value, EN61107_VALUE_L, ...)` and its unit.
abbrev pub printed : Text → Text → En61107Register
printed text unit = record { value = take (value_l - 1) text; unit = unit }

abbrev kept : ℕ → En61107Response → Scanned
kept word r = record { response = r; value = word }

-- The case for token number `i` in `parse_mc66cde_standard_data_1_frame`.
unfoldable pub standard_data_1 : Formats → ℕ → Text → Scanned → Scanned
standard_data_1 f i p s =
    let word = f.scan_float p s.value in
    let r = s.response in
    if i == 3
    then kept word (record r { t1 = printed (f.print_quotient 2 100 word) (codes "C") })
    else if i == 4
    then kept word (record r { t2 = printed (f.print_quotient 2 100 word) (codes "C") })
    else if i == 5
    then kept word (record r { tdif = printed (f.print_quotient 2 100 word) (codes "C") })
    else if i == 6
    then kept word (record r { effect1 = printed (f.print_quotient 3 10 word) (codes "kW") })
    else if i == 7
    then kept word (record r { flow1 = printed (f.print_int word) (codes "l/h") })
    else s

-- `atoi` of a few characters, as an unsigned number of `bits` bits.
unfoldable pub field : ℕ → Text → ℕ
field bits s =
    let n = atoi s in
    if n.negative then (2 ^ bits - n.magnitude % 2 ^ bits) % 2 ^ bits else n.magnitude % 2 ^ bits

-- The case for token number `i` in `parse_mc66cde_standard_data_2_frame`.
unfoldable pub standard_data_2 : ℕ → Text → MeterProgram → MeterProgram
standard_data_2 i p m =
    if i == 7 && leb 7 (length p)
    then record m {
      a = field 8 (take 1 (drop 2 p));
      b = field 8 (take 1 (drop 3 p));
      ccc = field 32 (take 3 (drop 4 p));
    }
    else if i == 8 && leb 7 (length p)
    then record m {
      dd = field 16 (take 2 p);
      e = field 8 (take 1 (drop 2 p));
      ff = field 16 (take 2 (drop 3 p));
      gg = field 16 (take 2 (drop 5 p));
    }
    else m

-- The case for token number `i` in `parse_mc66cde_inst_values_frame`.
unfoldable pub inst_values : Formats → ℕ → Text → Scanned → Scanned
inst_values f i p s =
    let word = f.scan_float p s.value in
    if i == 1
    then record {
      response = record s.response { t3 = printed (f.print_quotient 3 100 word) (codes "C") };
      value = word;
    }
    else s

-- The loops over the tokens, from number `i` on.
unfoldable pub each_token {ℓ} : {S : Type ℓ} → (ℕ → Text → S → S) → ℕ → List Text → S → S
each_token step i [] s = s
each_token step i (p ∷ ps) s = each_token step (suc i) ps (step i p s)

-- The parsers always answer true; `word` stands in `value` at first.
unfoldable pub parse_mc66cde_standard_data_1_frame :
    Formats → ℕ → En61107Response → List ℕ → En61107Response
parse_mc66cde_standard_data_1_frame f word r frame =
    (each_token (standard_data_1 f) 0 (tokens 32 [] (c_string frame))
      (record { response = r; value = word })).response

unfoldable pub parse_mc66cde_standard_data_2_frame : En61107Response → List ℕ → En61107Response
parse_mc66cde_standard_data_2_frame r frame = record r {
  meter_program = each_token standard_data_2 0 (tokens 32 [] (c_string frame)) r.meter_program;
}

unfoldable pub parse_mc66cde_inst_values_frame :
    Formats → ℕ → En61107Response → List ℕ → En61107Response
parse_mc66cde_inst_values_frame f word r frame =
    (each_token (inst_values f) 0 (tokens 32 [] (c_string frame))
      (record { response = r; value = word })).response

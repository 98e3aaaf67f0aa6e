-- ===== src/En61107.antt =====
-- user/en61107/en61107.c and en61107.h: the answers of a Kamstrup Multical 66 C, D or E over EN 61107.
-- This file has the data and the setters, Telegram the parser of the telegram, Standard the parsers of
-- the standard data. The module Bcc proves about the check sum, Parsing about the whole parser, Bounds
-- about the sizes of the texts. The module Session is the state machine of en61107_request.c.
use meter_logger.Prelude.{ℕ, ◌-◌, if◌then◌else◌, take}
use meter_logger.Prelude.Text.{Text, codes, text_eq}
pub mod Telegram
pub mod Standard
pub mod Bcc
pub mod Parsing
pub mod Reading
pub mod Framing
pub mod Answer
pub mod Bounds
pub mod Columns
pub mod Sample
pub mod Complete
pub mod Session
pub mod Tests

-- `EN61107_FRAME_L`, `_REGISTER_L`, `_RID_L`, `_UNIT_L`, `_VALUE_L`, `_CUSTOMER_NO_L`, `_METER_TYPE_L`
abbrev pub en61107_frame_l : ℕ
en61107_frame_l = 1024

abbrev pub register_l : ℕ
register_l = 32

abbrev pub rid_l : ℕ
rid_l = 6

abbrev pub unit_l : ℕ
unit_l = 5

abbrev pub value_l : ℕ
value_l = 10

abbrev pub customer_no_l : ℕ
customer_no_l = 13

abbrev pub meter_type_l : ℕ
meter_type_l = 8

-- The error codes of `parse_en61107_frame`.
pub data ParseResult : Type 0 where
  ok err_unknown err_empty_frame err_no_stx err_no_etx err_bcc_mismatch : ParseResult
  err_meter_type_bounds : ParseResult

-- `en61107_response_register_t`, its arrays as the texts that they hold.
pub record En61107Register : Type 0 where
  pub value : Text
  pub unit : Text

-- `en61107_meter_program_t`
pub record MeterProgram : Type 0 where
  pub a : ℕ
  pub b : ℕ
  pub ccc : ℕ
  pub dd : ℕ
  pub e : ℕ
  pub ff : ℕ
  pub gg : ℕ

-- `en61107_response_t`
pub record En61107Response : Type 0 where
  pub customer_no : Text
  pub meter_type : Text
  pub meter_program : MeterProgram
  pub t1 : En61107Register
  pub t2 : En61107Register
  pub t3 : En61107Register
  pub tdif : En61107Register
  pub flow1 : En61107Register
  pub effect1 : En61107Register
  pub hr : En61107Register
  pub v1 : En61107Register
  pub e1 : En61107Register

-- The library tinyprintf on the words that represent floats: `tfp_vsscanf(text, "%f", &word)`, which may
-- leave the word as it was, `tfp_snprintf` with `%f` of a word, with `%.nf` of a word over a divisor for
-- the number n of decimals and the divisor, with `%d` of the word as an int, and with `%0nu` of an unsigned
-- number for the width n; and the word times 1000.0 as a `uint32_t`.
pub record Formats : Type 0 where
  pub scan_float : Text → ℕ → ℕ
  pub print_float : ℕ → Text
  pub print_quotient : ℕ → ℕ → ℕ → Text
  pub print_int : ℕ → Text
  pub print_unsigned : ℕ → ℕ → Text
  pub thousandfold_of : ℕ → ℕ

unfoldable pub en61107_response_set_value : Text → Text → En61107Response → En61107Response
en61107_response_set_value rid value r =
    let value_copy = take (value_l - 1) value in
    let printed = take (value_l - 1) value_copy in
    if text_eq rid (codes "6.8")
    then record r { e1 = record r.e1 { value = printed } }
    else if text_eq rid (codes "6.26")
    then record r { v1 = record r.v1 { value = printed } }
    else if text_eq rid (codes "6.31")
    then record r { hr = record r.hr { value = printed } }
    else r

unfoldable pub en61107_response_set_unit : Text → Text → En61107Response → En61107Response
en61107_response_set_unit rid unit r =
    let unit_copy = take (unit_l - 1) unit in
    let printed = take (unit_l - 1) unit_copy in
    if text_eq rid (codes "6.8")
    then record r { e1 = record r.e1 { unit = printed } }
    else if text_eq rid (codes "6.26")
    then record r { v1 = record r.v1 { unit = printed } }
    else if text_eq rid (codes "6.31")
    then record r { hr = record r.hr { unit = printed } }
    else r

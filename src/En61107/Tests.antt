-- ===== src/En61107/Tests.antt =====
-- The EN 61107 driver on a telegram, a line and a session, with simple formats.
use meter_logger.Prelude.{
  ℕ, ◌+◌, ◌*◌, ◌%◌, ◌^◌, ◌≤◌, ◌≡◌, ◌≢◌, refl, Bool, true, ◌&&◌, not, leb, ◌==◌, none, List, [], ◌∷◌,
  All, arith,
}
use meter_logger.Prelude.Text.{
  Text, codes, atoi, text_eq, digits_from, signed_from, is_space, is_digit,
}
use meter_logger.Prelude.Search.{all-Lacks, starts_with, find}
use meter_logger.En61107.{
  Formats, ok, err_bcc_mismatch, En61107Response, en61107_response_set_value,
  en61107_response_set_unit,
}
use meter_logger.En61107.Telegram.{Parsed, parse_en61107_frame, parse_registers, separator}
use meter_logger.En61107.Bcc.{bcc_of, sum}
use meter_logger.En61107.Parsing.{Entry, valued, customer, written}
use meter_logger.En61107.Reading.{IsPlain}
use meter_logger.En61107.Framing.{IsFramed, parse_en61107_frame-damaged}
use meter_logger.En61107.Answer.{body_of, telegram, IsTelegram, parse_en61107_frame-telegram}
use meter_logger.En61107.Bounds.{Fits, AllFit, parse_registers-stops}
use meter_logger.En61107.Columns.{IsColumn}
use meter_logger.En61107.Sample.{sample_text, key_values}
use meter_logger.En61107.Complete.{IsPrinter, concat, sample_text_complete}
use meter_logger.En61107.Session.{zero_register, zero_response}

plain : Text → Bool
plain [] = true
plain (x ∷ xs) = leb 32 x && (not (x == 33) && plain xs)

plain-IsPlain : (xs : Text) → plain xs ≡ true → All IsPlain xs
unfolding plain
plain-IsPlain [] h = _
plain-IsPlain (x ∷ xs) h = (ground arith, plain-IsPlain xs (ground arith))

-- Digits are read as a number, and a number is printed as its last digit.
abbrev pub formats : Formats
formats = record {
  scan_float = λ s word. (atoi s).magnitude;
  print_float = λ word. (48 + word % 10) ∷ [];
  print_quotient = λ decimals divisor word. (48 + word % 10) ∷ [];
  print_int = λ word. (48 + word % 10) ∷ [];
  print_unsigned = λ width n. (48 + n % 10) ∷ [];
  thousandfold_of = λ word. word * 1000 % 2 ^ 32;
}

abbrev pub meter : Text
meter = codes "KAM"

abbrev pub number : Entry
number = customer (codes "0") (codes "12345678")

abbrev pub energy : Entry
energy = valued (codes "6.8") (codes "17") (codes "MWh")

abbrev pub volume : Entry
volume = valued (codes "6.26") (codes "239") (codes "m3")

abbrev pub entries : List Entry
entries = number ∷ energy ∷ []

pub entries-IsTelegram : IsTelegram meter 48 46 entries volume
unfolding starts_with plain
entries-IsTelegram = record {
  meter_fits = (omega arith, omega arith);
  meter_plain = plain-IsPlain meter refl;
  after_stx = (omega arith, omega arith);
  lines = (
    (
      (
        omega arith,
        omega arith,
        refl,
        all-Lacks 40 (codes "0") refl,
        all-Lacks 42 (codes "12345678") refl,
        all-Lacks 41 (codes "12345678") refl,
      ),
      plain-IsPlain (written number) refl,
    ),
    (
      (
        (
          omega arith,
          omega arith,
          refl,
          all-Lacks 40 (codes "6.8") refl,
          all-Lacks 42 (codes "17") refl,
          all-Lacks 41 (codes "MWh") refl,
        ),
        plain-IsPlain (written energy) refl,
      ),
      _,
    ),
  );
  last_line = (
    (
      omega arith,
      omega arith,
      refl,
      all-Lacks 40 (codes "6.26") refl,
      all-Lacks 42 (codes "239") refl,
      all-Lacks 41 (codes "m3") refl,
    ),
    plain-IsPlain (written volume) refl,
  );
  list_fits = omega arith;
}

-- The check sum of the body.
abbrev pub body_bcc : ℕ
body_bcc = 124

pub body_bcc_lem : 124 ≡ bcc_of (body_of 48 46 entries volume)
unfolding sum
body_bcc_lem = refl

-- The response after the telegram.
abbrev pub read_response : En61107Response
read_response = record zero_response {
  customer_no = codes "12345678";
  meter_type = codes "KAM";
  e1 = record { value = codes "7"; unit = codes "MWh" };
  v1 = record { value = codes "9"; unit = codes "m3" };
}

parse_en61107_frame-telegram_example :
    parse_en61107_frame formats [] 0 zero_response
      (telegram meter 48 46 entries volume body_bcc (0 ∷ []))
      52
    ≡ (ok, read_response)
unfolding en61107_response_set_value en61107_response_set_unit text_eq atoi signed_from digits_from
    is_space is_digit
parse_en61107_frame-telegram_example =
    parse_en61107_frame-telegram meter 48 46 entries volume formats [] 0 zero_response body_bcc
      (0 ∷ []) entries-IsTelegram body_bcc_lem

-- The telegram of one character.
one-IsFramed : (c : ℕ) → c ≢ 2 → c ≢ 3 → IsFramed (47 ∷ []) (c ∷ [])
one-IsFramed c h k = record {
  pre_lacks = (((λ e. omega arith), _), ((λ e. omega arith), _), ((λ e. omega arith), _));
  body_lacks = ((h, _), (k, _));
}

parse_en61107_frame-damaged_example :
    parse_en61107_frame formats [] 0 zero_response (47 ∷ 2 ∷ 49 ∷ 3 ∷ 51 ∷ []) 5
    ≡ (err_bcc_mismatch, zero_response)
unfolding sum
parse_en61107_frame-damaged_example =
    parse_en61107_frame-damaged formats [] 0 zero_response (47 ∷ []) [] [] 48 49 51 []
      (one-IsFramed 48 (λ e. omega arith) (λ e. omega arith))
      (one-IsFramed 49 (λ e. omega arith) (λ e. omega arith)) (λ e. omega arith) refl

start : Parsed
start = record { response = zero_response; rid = []; rid_value_unit = 0 }

-- Two separators, and a rest.
parse_registers-stops_example :
    (find separator (parse_registers 8 formats (codes "a\r\nb\r\nc") start).0 ≡ none)
    × (parse_registers 9 formats (codes "a\r\nb\r\nc") start
        ≡ parse_registers 8 formats (codes "a\r\nb\r\nc") start)
parse_registers-stops_example =
    parse_registers-stops 8 formats (codes "a\r\nb\r\nc") start (omega arith)

zero-Fits : Fits zero_register
zero-Fits = record { value_fits = omega arith; unit_fits = omega arith }

pub zero_response-AllFit : AllFit zero_response
zero_response-AllFit = record {
  customer_no_fits = omega arith;
  meter_type_fits = omega arith;
  temperatures_fit = (zero-Fits, zero-Fits, zero-Fits, zero-Fits);
  flow_fits = (zero-Fits, zero-Fits);
  counters_fit = (zero-Fits, zero-Fits, zero-Fits);
}

digit-IsColumn : (c : ℕ) → 48 ≤ c → IsColumn (c ∷ [])
digit-IsColumn c h = (omega arith, ((λ e. omega arith), _), ((λ e. omega arith), _))

pub formats-IsPrinter : IsPrinter formats
formats-IsPrinter w n h k = omega arith

sample_text_complete_example :
    sample_text formats 5 zero_response ≡ concat (key_values formats 5 zero_response)
sample_text_complete_example =
    sample_text_complete formats 5 zero_response formats-IsPrinter (omega arith)
      (omega arith, omega arith, omega arith, omega arith, omega arith, omega arith, omega arith)
      zero_response-AllFit

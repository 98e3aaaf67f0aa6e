-- ===== src/Kmp/Session/Shown.antt =====
-- The text of the sample that `kmp_received_task` of user/kamstrup/kmp_request.c makes of the registers of a reply.
use meter_logger.Prelude.{
  get_or, sym, append_assoc, append-nil, ℕ, ◌-◌, ◌≡◌, refl, ap, ◌∙◌, Option, none, some, List, [],
  ◌∷◌, ◌++◌, take,
}
use meter_logger.Prelude.Text.{Text, codes}
use meter_logger.Kmp.Response.{Register, Response, no_register}
use meter_logger.Kmp.Values.{kmp_value_to_string, kmp_unit_to_string}
use meter_logger.Kmp.Session.{message_text, append_value, value_text, key_value_l, KmpFormats}

-- The names of the values in the text, in their order, and where the register of each stands in the reply to the
-- request for the registers 60, 68, 1004, 86, 87, 89, 74 and 80.
abbrev pub text_fields : List (Text × ℕ)
text_fields =
    (codes "t1", 3)
    ∷ (codes "t2", 4)
    ∷ (codes "tdif", 5)
    ∷ (codes "flow1", 6)
    ∷ (codes "effect1", 7)
    ∷ (codes "hr", 2)
    ∷ (codes "v1", 1)
    ∷ (codes "e1", 0)
    ∷ []

abbrev pub prefixed : Text → Option Text → Option Text
prefixed t none = none
prefixed t (some later) = some (t ++ later)

-- A value as `name=value unit&`, cut to 127 characters, before the others; there is no text if it has none.
abbrev pub shown_field : Text → Text → Option Text → Option Text → Option Text
shown_field name unit none later = none
shown_field name unit (some value) later =
    prefixed (take 127 (name ++ codes "=" ++ value ++ codes " " ++ unit ++ codes "&")) later

abbrev pub fields_text : KmpFormats → List Register → List (Text × ℕ) → Option Text
fields_text f rs [] = some []
fields_text f rs ((name, i) ∷ fields) =
    let r = get_or rs i no_register in
    shown_field name (kmp_unit_to_string r.unit)
      (value_text (kmp_value_to_string f.print_unsigned r.value r.si_ex)) (fields_text f rs fields)

-- The text of the sample: the free heap, and the values.
abbrev pub reply_text : KmpFormats → ℕ → List Register → Option Text
reply_text f heap rs =
    prefixed (take 127 (codes "heap=" ++ f.print_unsigned heap ++ codes "&"))
      (fields_text f rs text_fields)

-- The values appended one by one.
append_fields : KmpFormats → List Register → List (Text × ℕ) → Option Text → Option Text
unfolding append_value
append_fields f rs [] o = o
append_fields f rs ((name, i) ∷ fields) o =
    append_fields f rs fields (append_value f name (get_or rs i no_register) o)

append_fields-none :
    (f : KmpFormats) (rs : List Register) (fields : List (Text × ℕ))
    → append_fields f rs fields none ≡ none
unfolding append_value append_fields
append_fields-none f rs [] = refl
append_fields-none f rs ((name, i) ∷ fields) = append_fields-none f rs fields

prefixed-prefixed : (a b : Text) (o : Option Text) → prefixed a (prefixed b o) ≡ prefixed (a ++ b) o
prefixed-prefixed a b none = refl
prefixed-prefixed a b (some l) = ap some (sym (append_assoc a b l))

append_shown :
    (f : KmpFormats) (rs : List Register) (fields : List (Text × ℕ)) (name unit : Text)
    (o : Option Text) (m : Text)
    → ((t : Text) → append_fields f rs fields (some t) ≡ prefixed t (fields_text f rs fields))
    → append_fields f rs fields (elim o [
      | none ↦ none
      | some value ↦ some (
          m
          ++ take (key_value_l - 1) (name ++ codes "=" ++ value ++ codes " " ++ unit ++ codes "&"))
    ])
      ≡ prefixed m (shown_field name unit o (fields_text f rs fields))
unfolding append_fields append_value
append_shown f rs fields name unit none m ih = append_fields-none f rs fields
append_shown f rs fields name unit (some value) m ih = ih _ ∙ sym (prefixed-prefixed m _ _)

append_fields_lem :
    (f : KmpFormats) (rs : List Register) (fields : List (Text × ℕ)) (m : Text)
    → append_fields f rs fields (some m) ≡ prefixed m (fields_text f rs fields)
unfolding append_value append_fields
append_fields_lem f rs [] m = ap some (sym (append-nil m))
append_fields_lem f rs ((name, i) ∷ fields) m =
    let r = get_or rs i no_register in
    append_shown f rs fields name (kmp_unit_to_string r.unit)
      (value_text (kmp_value_to_string f.print_unsigned r.value r.si_ex)) m
      (append_fields_lem f rs fields)

-- The code's text of the sample is the one above.
pub message_text-reply_text :
    (f : KmpFormats) (heap : ℕ) (response : Response)
    → message_text f heap response ≡ reply_text f heap response.register_list
unfolding message_text append_fields
message_text-reply_text f heap response =
    append_fields_lem f response.register_list text_fields
      (take (key_value_l - 1) (codes "heap=" ++ f.print_unsigned heap ++ codes "&"))

-- ===== src/En61107/Sample.antt =====
-- The sample that user/en61107/en61107_request.c publishes, its topic and its text, in the build without
-- FLOW_METER and MC_66B.
use meter_logger.Prelude.{
  ℕ, ◌+◌, ◌-◌, ◌%◌, ◌^◌, if◌then◌else◌, ltb, List, [], ◌∷◌, ◌++◌, length, take,
}
use meter_logger.Prelude.Text.{Text, codes, text_eq, atoi}
use meter_logger.En61107.{Formats, En61107Register, MeterProgram, En61107Response, en61107_frame_l}

-- `MQTT_TOPIC_L` and `AES_HMAC_OVERHEAD`
abbrev pub mqtt_topic_l : ℕ
mqtt_topic_l = 128

abbrev pub aes_hmac_overhead : ℕ
aes_hmac_overhead = 64

-- The text in `dst` after `append_key_value(dst, max_len, src)`: what would fill it is left out.
unfoldable pub append_key_value : Text → ℕ → Text → Text
append_key_value dst max_len src =
    if ltb (length dst + length src) (max_len - 1) then dst ++ src else dst

-- `tfp_snprintf(topic, MQTT_TOPIC_L, "/sample/v2/%07u/%s", serial, time)`
unfoldable pub sample_topic : Formats → ℕ → ℕ → Text
sample_topic f serial unix_time =
    let current_unix_time_string = take 63 (f.print_unsigned 0 unix_time) in
    take (mqtt_topic_l - 1)
      (codes "/sample/v2/" ++ f.print_unsigned 7 serial ++ codes "/" ++ current_unix_time_string)

-- `program=%01u%01u%03u%02u%01u%02u%02u&`
unfoldable pub program_text : Formats → MeterProgram → Text
program_text f m =
    codes "program="
    ++ f.print_unsigned 1 m.a
    ++ f.print_unsigned 1 m.b
    ++ f.print_unsigned 3 m.ccc
    ++ f.print_unsigned 2 m.dd
    ++ f.print_unsigned 1 m.e
    ++ f.print_unsigned 2 m.ff
    ++ f.print_unsigned 2 m.gg
    ++ codes "&"

-- `name=%s %s&`
abbrev pub register_text : Text → En61107Register → Text
register_text name r = name ++ codes "=" ++ r.value ++ codes " " ++ r.unit ++ codes "&"

-- The key values in their order, each as printed into `key_value`.
unfoldable pub key_values : Formats → ℕ → En61107Response → List Text
unfolding program_text
key_values f heap r =
    (codes "heap=" ++ f.print_unsigned 0 heap ++ codes "&")
    ∷ program_text f r.meter_program
    ∷ register_text (codes "t1") r.t1
    ∷ register_text (codes "t2") r.t2
    ∷ register_text (codes "t3") r.t3
    ∷ register_text (codes "tdif") r.tdif
    ∷ register_text (codes "flow1") r.flow1
    ∷ register_text (codes "effect1") r.effect1
    ∷ register_text (codes "hr") r.hr
    ∷ register_text (codes "v1") r.v1
    ∷ register_text (codes "e1") r.e1
    ∷ []

-- `sizeof(message)`
abbrev pub message_l : ℕ
message_l = en61107_frame_l + aes_hmac_overhead

-- Each is cut by `tfp_snprintf(key_value, MQTT_TOPIC_L, ...)` and appended.
unfoldable pub append_all : Text → List Text → Text
append_all message [] = message
append_all message (kv ∷ kvs) =
    append_all (append_key_value message message_l (take (mqtt_topic_l - 1) kv)) kvs

-- The text in `cleartext`, of which the last byte stays a NUL.
unfoldable pub sample_text : Formats → ℕ → En61107Response → Text
sample_text f heap r = take (en61107_frame_l - 1) (append_all [] (key_values f heap r))

-- `en61107_get_received_energy_kwh`; what `%f` leaves in `e1_kwh`, which is not initialised, is `word`.
unfoldable pub en61107_get_received_energy_kwh : Formats → ℕ → En61107Response → ℕ
en61107_get_received_energy_kwh f word r =
    let n = atoi r.e1.value in
    if text_eq r.e1.unit (codes "MWh")
    then f.thousandfold_of (f.scan_float r.e1.value word)
    else if n.negative
    then (2 ^ 32 - n.magnitude % 2 ^ 32) % 2 ^ 32
    else n.magnitude % 2 ^ 32

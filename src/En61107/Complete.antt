-- ===== src/En61107/Complete.antt =====
-- The text of the sample of user/en61107/en61107_request.c is complete.
use meter_logger.Prelude.{
  ℕ, ◌+◌, ◌-◌, ◌^◌, ◌≤◌, ◌<◌, ◌≡◌, refl, sym, ◌∙◌, append_assoc, append-nil, lt→ltb, List, [], ◌∷◌,
  ◌++◌, length, length-append, take_all, arith,
}
use meter_logger.Prelude.Text.{Text, codes}
use meter_logger.En61107.{Formats, En61107Register, MeterProgram, En61107Response, en61107_frame_l}
use meter_logger.En61107.Bounds.{Fits, AllFit}
use meter_logger.En61107.Sample.{
  mqtt_topic_l, append_key_value, program_text, register_text, key_values, message_l, append_all,
  sample_text,
}

-- Numbers of 32 bits have at most ten digits, and no width is over seven.
abbrev pub IsPrinter : Formats → Type 0
IsPrinter f = (w n : ℕ) → w ≤ 7 → n < 2 ^ 32 → length (f.print_unsigned w n) ≤ 10

abbrev pub IsProgram : MeterProgram → Type 0
IsProgram m =
    (m.a < 2 ^ 32)
    × (m.b < 2 ^ 32)
    × (m.ccc < 2 ^ 32)
    × (m.dd < 2 ^ 32)
    × (m.e < 2 ^ 32)
    × (m.ff < 2 ^ 32)
    × (m.gg < 2 ^ 32)

-- The texts one after the other.
abbrev pub concat : List Text → Text
concat [] = []
concat (t ∷ ts) = t ++ concat ts

abbrev Short : List Text → Type 0
Short [] = Unit {0}
Short (t ∷ ts) = (length t < mqtt_topic_l) × Short ts

append_all-Short :
    (dst : Text) (ts : List Text)
    → Short ts
    → length dst + length (concat ts) < message_l - 1
    → append_all dst ts ≡ dst ++ concat ts
unfolding append_all append_key_value
append_all-Short dst [] h k = sym (append-nil dst)
append_all-Short dst (t ∷ ts) h k =
    let whole = take_all t (mqtt_topic_l - 1) (omega (arith, h.0)) in
    let sizes = length-append t (concat ts) in
    let room = lt→ltb (length dst + length t) (message_l - 1) (omega (arith, k, sizes)) in
    let ih = append_all-Short (dst ++ t) ts h.1 (omega (arith, k, sizes, length-append dst t)) in
    rw (whole, room) (ih ∙ append_assoc dst t (concat ts))

length-register_text :
    (name : Text) (r : En61107Register)
    → length name ≤ 7
    → Fits r
    → length (register_text name r) ≤ 24
length-register_text name r h k =
    let a = name ++ codes "=" in
    let b = a ++ r.value in
    let c = b ++ codes " " in
    let d = c ++ r.unit in
    omega (
      arith,
      h,
      k.value_fits,
      k.unit_fits,
      length-append d (codes "&"),
      length-append c r.unit,
      length-append b (codes " "),
      length-append a r.value,
      length-append name (codes "="),
    )

program_text_fits :
    (f : Formats) (m : MeterProgram) → IsPrinter f → IsProgram m → length (program_text f m) ≤ 79
unfolding program_text
program_text_fits f m p h =
    let a = codes "program=" ++ f.print_unsigned 1 m.a in
    let b = a ++ f.print_unsigned 1 m.b in
    let c = b ++ f.print_unsigned 3 m.ccc in
    let d = c ++ f.print_unsigned 2 m.dd in
    let e = d ++ f.print_unsigned 1 m.e in
    let g = e ++ f.print_unsigned 2 m.ff in
    let i = g ++ f.print_unsigned 2 m.gg in
    omega (
      arith,
      length-append i (codes "&"),
      length-append g (f.print_unsigned 2 m.gg),
      length-append e (f.print_unsigned 2 m.ff),
      length-append d (f.print_unsigned 1 m.e),
      length-append c (f.print_unsigned 2 m.dd),
      length-append b (f.print_unsigned 3 m.ccc),
      length-append a (f.print_unsigned 1 m.b),
      length-append (codes "program=") (f.print_unsigned 1 m.a),
      p 1 m.a (omega arith) h.0,
      p 1 m.b (omega arith) h.1,
      p 3 m.ccc (omega arith) h.2,
      p 2 m.dd (omega arith) h.3,
      p 1 m.e (omega arith) h.4,
      p 2 m.ff (omega arith) h.5,
      p 2 m.gg (omega arith) h.6,
    )

heap_fits :
    (f : Formats) (heap : ℕ)
    → IsPrinter f
    → heap < 2 ^ 32
    → length (codes "heap=" ++ f.print_unsigned 0 heap ++ codes "&") ≤ 16
heap_fits f heap p h = omega (
  arith,
  p 0 heap (omega arith) h,
  length-append (codes "heap=" ++ f.print_unsigned 0 heap) (codes "&"),
  length-append (codes "heap=") (f.print_unsigned 0 heap),
)

-- Texts of which each is short, and which have so many characters together.
Sized : ℕ → List Text → Type 0
Sized n ts = Short ts × (length (concat ts) ≤ n)

Sized-nil : Sized 0 []
unfolding Sized
Sized-nil = (_, omega arith)

Sized-cons :
    (n m k : ℕ) (t : Text) (ts : List Text)
    → length t ≤ m
    → m < mqtt_topic_l
    → k ≡ m + n
    → Sized n ts
    → Sized k (t ∷ ts)
unfolding Sized
Sized-cons n m k t ts a b e h =
    ((omega arith, h.0), omega (arith, h.1, length-append t (concat ts)))

register_cons :
    (n : ℕ) (name : Text) (r : En61107Register) (ts : List Text)
    → length name ≤ 7
    → Fits r
    → Sized n ts
    → Sized (24 + n) (register_text name r ∷ ts)
register_cons n name r ts a b h =
    Sized-cons n 24 (24 + n) (register_text name r) ts (length-register_text name r a b)
      (omega arith) refl h

key_values-Sized :
    (f : Formats) (heap : ℕ) (r : En61107Response)
    → IsPrinter f
    → heap < 2 ^ 32
    → IsProgram r.meter_program
    → AllFit r
    → Sized 311 (key_values f heap r)
unfolding key_values
key_values-Sized f heap r p h m k =
    let base = Sized-nil in
    let e1 = register_cons 0 (codes "e1") r.e1 _ (omega arith) k.counters_fit.2 base in
    let v1 = register_cons 24 (codes "v1") r.v1 _ (omega arith) k.counters_fit.1 e1 in
    let hr = register_cons 48 (codes "hr") r.hr _ (omega arith) k.counters_fit.0 v1 in
    let effect1 = register_cons 72 (codes "effect1") r.effect1 _ (omega arith) k.flow_fits.1 hr in
    let flow1 = register_cons 96 (codes "flow1") r.flow1 _ (omega arith) k.flow_fits.0 effect1 in
    let tdif = register_cons 120 (codes "tdif") r.tdif _ (omega arith) k.temperatures_fit.3 flow1 in
    let t3 = register_cons 144 (codes "t3") r.t3 _ (omega arith) k.temperatures_fit.2 tdif in
    let t2 = register_cons 168 (codes "t2") r.t2 _ (omega arith) k.temperatures_fit.1 t3 in
    let t1 = register_cons 192 (codes "t1") r.t1 _ (omega arith) k.temperatures_fit.0 t2 in
    let program =
      Sized-cons 216 79 295 (program_text f r.meter_program) _
        (program_text_fits f r.meter_program p m) (omega arith) refl t1 in
    Sized-cons 295 16 311 (codes "heap=" ++ f.print_unsigned 0 heap ++ codes "&") _
      (heap_fits f heap p h) (omega arith) refl program

-- The text of the sample has all values, one after the other: nothing is left out and nothing is cut, if the
-- texts of the response are within their arrays and the numbers have 32 bits.
pub sample_text_complete :
    (f : Formats) (heap : ℕ) (r : En61107Response)
    → IsPrinter f
    → heap < 2 ^ 32
    → IsProgram r.meter_program
    → AllFit r
    → sample_text f heap r ≡ concat (key_values f heap r)
unfolding sample_text Sized
sample_text_complete f heap r p h m k =
    let kvs = key_values f heap r in
    let sized = key_values-Sized f heap r p h m k in
    let all = append_all-Short [] kvs sized.0 (omega (arith, sized.1)) in
    rw all (take_all (concat kvs) (en61107_frame_l - 1) (omega (arith, sized.1)))

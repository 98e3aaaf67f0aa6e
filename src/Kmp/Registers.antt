-- ===== src/Kmp/Registers.antt =====
-- The register loop of `kmp_decode_frame` in user/kamstrup/kmp.c: what it reads from a reply, and
-- when it leaves its array.
use meter_logger.Prelude.{
  ℕ, zero, suc, ◌+◌, ◌*◌, ◌/◌, ◌%◌, ◌^◌, ◌≤◌, ◌<◌, ◌≡◌, refl, sym, ap, ◌∙◌, List, [], ◌∷◌, none,
  some, if◌then◌else◌, ltb, get_or, set, length-set, copy_to, copy_to-set, copy_to-nil, All, arith,
}
use meter_logger.Prelude
use meter_logger.Kmp.Response.{Register, byte_at, register_at, read_registers}

-- A register that fits its fields: bit patterns of 16, 8, 8, 8 and 32 bits.
pub record Fits (r : Register) : Type 0 where
  pub rid : r.rid < 2 ^ 16
  pub unit : r.unit < 2 ^ 8
  pub length : r.length < 2 ^ 8
  pub si_ex : r.si_ex < 2 ^ 8
  pub value : r.value < 2 ^ 32

-- The nine bytes of a register in a reply, high bytes first.
abbrev pub reply_bytes : List Register → List ℕ
reply_bytes [] = []
reply_bytes (r ∷ rest) =
    r.rid / 2 ^ 8
    ∷ r.rid % 2 ^ 8
    ∷ r.unit
    ∷ r.length
    ∷ r.si_ex
    ∷ r.value / 2 ^ 24
    ∷ r.value / 2 ^ 16 % 2 ^ 8
    ∷ r.value / 2 ^ 8 % 2 ^ 8
    ∷ r.value % 2 ^ 8
    ∷ reply_bytes rest

-- The buffer holds the bytes from an index on.
abbrev pub Stands : List ℕ → ℕ → List ℕ → Type 0
Stands frame at bytes =
    (p j : ℕ) → p ≡ at + j → j < Prelude.length bytes → byte_at frame p ≡ get_or bytes j 0

register_ext :
    (r s : Register)
    → r.rid ≡ s.rid
    → r.unit ≡ s.unit
    → r.length ≡ s.length
    → r.si_ex ≡ s.si_ex
    → r.value ≡ s.value
    → r ≡ s
register_ext r s a b c d e =
    λ i. record { rid = a i; unit = b i; length = c i; si_ex = d i; value = e i }

register_lem :
    (frame : List ℕ) (at : ℕ) (r : Register) (rest : List Register)
    → Fits r
    → Stands frame at (reply_bytes (r ∷ rest))
    → register_at frame at ≡ r
register_lem frame at r rest f st =
    register_ext (register_at frame at) r
      (omega (arith, f.rid, st at 0 (omega arith) (omega arith), st (at + 1) 1 refl (omega arith)))
      (st (at + 2) 2 refl (omega arith)) (st (at + 3) 3 refl (omega arith))
      (st (at + 4) 4 refl (omega arith))
      (omega (
        arith,
        f.value,
        st (at + 5) 5 refl (omega arith),
        st (at + 5 + 1) 6 (omega arith) (omega arith),
        st (at + 5 + 2) 7 (omega arith) (omega arith),
        st (at + 5 + 3) 8 (omega arith) (omega arith),
      ))

-- The loop stores the registers of the reply one after the other.
pub read_registers_lem :
    (rs : List Register) (i : ℕ) (frame : List ℕ) (registers : List Register)
    → All Fits rs
    → Stands frame (9 * i + 3) (reply_bytes rs)
    → i + Prelude.length rs ≤ Prelude.length registers
    → read_registers (Prelude.length rs) i frame registers ≡ some (copy_to registers i rs)
unfolding read_registers
read_registers_lem [] i frame registers f st fits = ap some (sym (copy_to-nil registers i))
read_registers_lem (r ∷ rest) i frame registers f st fits =
    let stored = set registers i r in
    let ih =
      read_registers_lem rest (i + 1) frame stored f.1
        (λ p j e q.
          st p (suc (suc (suc (suc (suc (suc (suc (suc (suc j))))))))) (omega arith) (omega arith))
        (omega (arith, length-set registers i r)) in
    let next = copy_to-set registers i (i + 1) r rest refl (omega arith) in
    rw (register_lem frame (9 * i + 3) r rest f.0 st, ih ∙ ap some next) (ground arith)

-- More rounds than the array has room for write past its end.
pub read_registers_overrun :
    (left i : ℕ) (frame : List ℕ) (registers : List Register)
    → i ≤ Prelude.length registers
    → Prelude.length registers < i + left
    → read_registers left i frame registers ≡ none
unfolding read_registers
read_registers_overrun zero i frame registers p q = absurd (omega arith)
read_registers_overrun (suc left) i frame registers p q =
    let r = register_at frame (9 * i + 3) in
    ground (
      arith,
      length-set registers i r,
      read_registers_overrun left (i + 1) frame (set registers i r),
    )

-- ===== src/Vector/Opm.antt =====
-- The vector instructions of riscv/riscv_vector_opm_instructions.cc. A wider type that holds the product or
-- the sum exactly is twice as wide.
pub mod Masks
use mpact_riscv.Common.{
  ℕ, zero, suc, ◌+◌, ◌-◌, ◌*◌, ◌/◌, ◌%◌, ◌^◌, Bool, true, false, ◌&&◌, ◌||◌, ◌==◌, leb,
  if◌then◌else◌, bit_and, bit_or, bit_xor, List, [], ◌∷◌,
}
use mpact_riscv.Words.{complement, ◌<<<◌, ◌>>>◌}
use mpact_riscv.Muldiv.{widen, least, negate, div, divu, rem, remu, mulh, mulhu}
use mpact_riscv.Vector.Loop.{Span, Operands, VectorUnit, ternary_vector_op, binary_vector_op}
use mpact_riscv.Vector.Mask.{submitted}
use mpact_riscv.Vector.Fixed.{round_off}
use mpact_riscv.Vector.Opi.{by_width, widths, narrow_widths, binary, fixed, halved}

-- VaaddHelper and VasubHelper: a sum or a difference, which C++ computes in 32 bits or in twice the width,
-- shifted right by one and rounded.
abbrev pub promoted : ℕ → ℕ
promoted w = if w == 8 then 32 else 2 * w

unfoldable pub vaadd_helper : ℕ → Bool → ℕ → ℕ → ℕ → ℕ
vaadd_helper w signed rm a b =
    let wide = promoted w in
    let a_wide = if signed then widen w wide a else a in
    let b_wide = if signed then widen w wide b else b in
    round_off wide (signed || w == 8) rm ((a_wide + b_wide) % 2 ^ wide) 1 % 2 ^ w

unfoldable pub vasub_helper : ℕ → Bool → ℕ → ℕ → ℕ → ℕ
vasub_helper w signed rm a b =
    let wide = promoted w in
    let a_wide = if signed then widen w wide a else a in
    let b_wide = if signed then widen w wide b else b in
    round_off wide (signed || w == 8) rm ((a_wide + (2 ^ wide - b_wide)) % 2 ^ wide) 1 % 2 ^ w

-- BitwiseMaskBinaryOp, on the bytes of the registers.
abbrev pub put_byte : ℕ → ℕ → Span → Span
put_byte i x span = λ k. if k == i then x else span k

unfoldable pub middle_loop : (ℕ → ℕ) → ℕ → ℕ → Span → Span
middle_loop value zero i span = span
middle_loop value (suc n) i span = middle_loop value n (i + 1) (put_byte i (value i) span)

unfoldable pub bitwise_bytes : (ℕ → ℕ → ℕ) → Operands → VectorUnit → Span
bitwise_bytes op o u =
    let v = u.state in
    let value = λ (i : ℕ). op (o.vs2 u.dest i) (o.vs1 u.dest i) in
    let start_byte = v.vstart / 8 in
    let start_mask = (0xff <<< (v.vstart % 8)) % 2 ^ 8 in
    let end_byte = (v.vector_length - 1) / 8 in
    let end_mask = if v.vector_length == 0 then 0 else 0xff >>> (7 - (v.vector_length - 1) % 8) in
    let partly = λ (i : ℕ) (mask : ℕ) (span : Span).
      put_byte i (bit_or (bit_and (value i) mask) (bit_and (span i) (complement 8 mask))) span in
    let first = partly start_byte start_mask (u.dest 0) in
    let middle = middle_loop value (end_byte - (start_byte + 1)) (start_byte + 1) first in
    partly end_byte end_mask middle

unfoldable pub bitwise_mask_binary_op : (ℕ → ℕ → ℕ) → Operands → VectorUnit → VectorUnit
bitwise_mask_binary_op op o u =
    if u.state.vector_exception then u else submitted u (bitwise_bytes op o u)

-- The remainder of the least number by -1 overflows for elements of 32 and 64 bits, which C++ leaves
-- undefined.
unfoldable pub vrem_element : ℕ → ℕ → ℕ → ℕ → ℕ
vrem_element undefined w a b =
    if leb 32 w && b == 2 ^ w - 1 && a == least w then undefined else rem w a b

-- An operation on narrow elements, given by their width, with a wide result, and ones with a wide first
-- source and with a wide sum.
abbrev pub widening : (ℕ → ℕ → ℕ → ℕ) → Operands → VectorUnit → VectorUnit
widening op o =
    by_width narrow_widths
      (λ n. binary_vector_op (2 * n) n n (λ a b. op (8 * n) a b % 2 ^ (16 * n)) o)

abbrev pub wide_source : (ℕ → ℕ → ℕ → ℕ) → Operands → VectorUnit → VectorUnit
wide_source op o = halved (
    by_width narrow_widths
      (λ n. binary_vector_op (2 * n) (2 * n) n (λ a b. op (8 * n) a b % 2 ^ (16 * n)) o))

abbrev pub accumulating : (ℕ → ℕ → ℕ → ℕ) → Operands → VectorUnit → VectorUnit
accumulating product o = halved (
    by_width narrow_widths
      (λ n. ternary_vector_op (2 * n) n n (λ a b d. (product (8 * n) a b + d) % 2 ^ (16 * n)) o))

abbrev pub ternary : (ℕ → ℕ → ℕ → ℕ → ℕ) → Operands → VectorUnit → VectorUnit
ternary op o = by_width widths (λ n. ternary_vector_op n n n (op (8 * n)) o)

-- The conversion of a signed element to twice its width.
abbrev pub sign_extended : ℕ → ℕ → ℕ
sign_extended w a = widen w (2 * w) a

unfoldable pub vaaddu : Operands → VectorUnit → VectorUnit
vaaddu = fixed (λ w rm a b. (vaadd_helper w false rm a b, false))

unfoldable pub vaadd : Operands → VectorUnit → VectorUnit
vaadd = fixed (λ w rm a b. (vaadd_helper w true rm a b, false))

unfoldable pub vasubu : Operands → VectorUnit → VectorUnit
vasubu = fixed (λ w rm a b. (vasub_helper w false rm a b, false))

unfoldable pub vasub : Operands → VectorUnit → VectorUnit
vasub = fixed (λ w rm a b. (vasub_helper w true rm a b, false))

unfoldable pub vmandnot : Operands → VectorUnit → VectorUnit
vmandnot = bitwise_mask_binary_op (λ a b. bit_and a (complement 8 b))

unfoldable pub vmand : Operands → VectorUnit → VectorUnit
vmand = bitwise_mask_binary_op (λ a b. bit_and a b)

unfoldable pub vmor : Operands → VectorUnit → VectorUnit
vmor = bitwise_mask_binary_op (λ a b. bit_or a b)

unfoldable pub vmxor : Operands → VectorUnit → VectorUnit
vmxor = bitwise_mask_binary_op (λ a b. bit_xor a b)

unfoldable pub vmornot : Operands → VectorUnit → VectorUnit
vmornot = bitwise_mask_binary_op (λ a b. bit_or a (complement 8 b))

unfoldable pub vmnand : Operands → VectorUnit → VectorUnit
vmnand = bitwise_mask_binary_op (λ a b. complement 8 (bit_and a b))

unfoldable pub vmnor : Operands → VectorUnit → VectorUnit
vmnor = bitwise_mask_binary_op (λ a b. complement 8 (bit_or a b))

unfoldable pub vmxnor : Operands → VectorUnit → VectorUnit
vmxnor = bitwise_mask_binary_op (λ a b. complement 8 (bit_xor a b))

unfoldable pub vdivu : Operands → VectorUnit → VectorUnit
vdivu = binary divu

unfoldable pub vdiv : Operands → VectorUnit → VectorUnit
vdiv = binary div

unfoldable pub vremu : Operands → VectorUnit → VectorUnit
vremu = binary remu

unfoldable pub vrem : ℕ → Operands → VectorUnit → VectorUnit
vrem undefined = binary (vrem_element undefined)

unfoldable pub vmulhu : Operands → VectorUnit → VectorUnit
vmulhu = binary mulhu

unfoldable pub vmul : Operands → VectorUnit → VectorUnit
vmul = binary (λ w a b. a * b % 2 ^ w)

unfoldable pub vmulhsu : Operands → VectorUnit → VectorUnit
vmulhsu = binary (λ w a b. sign_extended w a * b % 2 ^ (2 * w) / 2 ^ w)

unfoldable pub vmulh : Operands → VectorUnit → VectorUnit
vmulh = binary mulh

unfoldable pub vmadd : Operands → VectorUnit → VectorUnit
vmadd = ternary (λ w a b d. (b * d + a) % 2 ^ w)

unfoldable pub vnmsub : Operands → VectorUnit → VectorUnit
vnmsub = ternary (λ w a b d. (negate w (b * d % 2 ^ w) + a) % 2 ^ w)

unfoldable pub vmacc : Operands → VectorUnit → VectorUnit
vmacc = ternary (λ w a b d. (b * a + d) % 2 ^ w)

unfoldable pub vnmsac : Operands → VectorUnit → VectorUnit
vnmsac = ternary (λ w a b d. (negate w (b * a % 2 ^ w) + d) % 2 ^ w)

unfoldable pub vwaddu : Operands → VectorUnit → VectorUnit
vwaddu = widening (λ w a b. a + b)

unfoldable pub vwsubu : Operands → VectorUnit → VectorUnit
vwsubu = widening (λ w a b. a + (2 ^ (2 * w) - b))

unfoldable pub vwadd : Operands → VectorUnit → VectorUnit
vwadd o = halved (widening (λ w a b. sign_extended w a + sign_extended w b) o)

unfoldable pub vwsub : Operands → VectorUnit → VectorUnit
vwsub o = halved (widening (λ w a b. sign_extended w a + (2 ^ (2 * w) - sign_extended w b)) o)

unfoldable pub vwadduw : Operands → VectorUnit → VectorUnit
vwadduw = wide_source (λ w a b. a + b)

unfoldable pub vwsubuw : Operands → VectorUnit → VectorUnit
vwsubuw = wide_source (λ w a b. a + (2 ^ (2 * w) - b))

unfoldable pub vwaddw : Operands → VectorUnit → VectorUnit
vwaddw = wide_source (λ w a b. a + sign_extended w b)

unfoldable pub vwsubw : Operands → VectorUnit → VectorUnit
vwsubw = wide_source (λ w a b. a + (2 ^ (2 * w) - sign_extended w b))

unfoldable pub vwmulu : Operands → VectorUnit → VectorUnit
vwmulu o = halved (widening (λ w a b. a * b) o)

unfoldable pub vwmulsu : Operands → VectorUnit → VectorUnit
vwmulsu o = halved (widening (λ w a b. sign_extended w a * b) o)

unfoldable pub vwmul : Operands → VectorUnit → VectorUnit
vwmul o = halved (widening (λ w a b. sign_extended w a * sign_extended w b) o)

unfoldable pub vwmaccu : Operands → VectorUnit → VectorUnit
vwmaccu = accumulating (λ w a b. a * b)

unfoldable pub vwmacc : Operands → VectorUnit → VectorUnit
vwmacc = accumulating (λ w a b. sign_extended w a * sign_extended w b)

unfoldable pub vwmaccus : Operands → VectorUnit → VectorUnit
vwmaccus = accumulating (λ w a b. sign_extended w a * b)

unfoldable pub vwmaccsu : Operands → VectorUnit → VectorUnit
vwmaccsu = accumulating (λ w a b. a * sign_extended w b)

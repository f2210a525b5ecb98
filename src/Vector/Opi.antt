-- ===== src/Vector/Opi.antt =====
-- The vector instructions of riscv/riscv_vector_opi_instructions.cc. The second source is the immediate, the
-- register or the vector that is encoded.
pub mod Widths
use mpact_riscv.Common.{
  ℕ, zero, suc, ◌+◌, ◌-◌, ◌*◌, ◌/◌, ◌%◌, ◌^◌, Bool, true, false, not, ◌||◌, ◌==◌, ◌/=◌, ltb, leb,
  if◌then◌else◌, bit_and, bit_or, bit_xor, some, List, [], ◌∷◌,
}
use mpact_riscv.Words.{◌>>>◌}
use mpact_riscv.Bitmanip.{signed_ltb, max_signed, max_unsigned, min_signed, min_unsigned}
use mpact_riscv.Integer.{add, sub, sll, srl, sra, shift_signed}
use mpact_riscv.Vector.Loop.{
  Span, Group, Operands, VectorUnit, raise, mask_binary_vector_op, saturating_vector_op,
  binary_vector_op,
}
use mpact_riscv.Vector.Mask.{set_mask_binary_vector_mask_op, binary_vector_mask_op}
use mpact_riscv.Vector.Fixed.{
  vssr_helper, vnclip_helper, vsmul_helper, saddu, vsadd_helper, ssubu, vssub_helper, madc, madc64,
  msbc, msbc64, adc, sbc,
}

-- The switch over the widths of elements, in bytes.
abbrev pub by_width : List ℕ → (ℕ → VectorUnit → VectorUnit) → VectorUnit → VectorUnit
by_width [] run u = raise u
by_width (n ∷ ns) run u = if u.state.selected_element_width == n then run n u else by_width ns run u

abbrev pub widths : List ℕ
widths = 1 ∷ 2 ∷ 4 ∷ 8 ∷ []

abbrev pub narrow_widths : List ℕ
narrow_widths = 1 ∷ 2 ∷ 4 ∷ []

-- An operation on elements of the same width, given by the width in bits.
abbrev pub binary : (ℕ → ℕ → ℕ → ℕ) → Operands → VectorUnit → VectorUnit
binary op o = by_width widths (λ n. binary_vector_op n n n (op (8 * n)) o)

-- One that may saturate, with the rounding mode.
abbrev pub fixed : (ℕ → ℕ → ℕ → ℕ → ℕ × Bool) → Operands → VectorUnit → VectorUnit
fixed op o u = by_width widths (λ n. saturating_vector_op n n n (op (8 * n) u.state.vxrm) o) u

-- One with the bit of the mask as a carry, which writes every element.
abbrev pub carried : (ℕ → ℕ → ℕ → Bool → ℕ) → Operands → VectorUnit → VectorUnit
carried op o = by_width widths (λ n.
    mask_binary_vector_op n n n
      (λ a b mask. record { value = some (op (8 * n) a b mask); saturates = false; fails = false })
      o)

-- A comparison.
abbrev pub compared : (ℕ → ℕ → ℕ → Bool) → Operands → VectorUnit → VectorUnit
compared op o = by_width widths (λ n. binary_vector_mask_op (op (8 * n)) o)

-- An instruction with a wide operand, which a group of eight registers has no room for.
abbrev pub halved : (VectorUnit → VectorUnit) → VectorUnit → VectorUnit
halved run u = if ltb 32 u.state.vector_length_multiplier then raise u else run u

unfoldable pub vadd : Operands → VectorUnit → VectorUnit
vadd = binary add

unfoldable pub vsub : Operands → VectorUnit → VectorUnit
vsub = binary sub

unfoldable pub vrsub : Operands → VectorUnit → VectorUnit
vrsub = binary (λ w a b. sub w b a)

unfoldable pub vand : Operands → VectorUnit → VectorUnit
vand = binary (λ w. bit_and)

unfoldable pub vor : Operands → VectorUnit → VectorUnit
vor = binary (λ w. bit_or)

unfoldable pub vxor : Operands → VectorUnit → VectorUnit
vxor = binary (λ w. bit_xor)

unfoldable pub vsll : Operands → VectorUnit → VectorUnit
vsll = binary sll

unfoldable pub vsrl : Operands → VectorUnit → VectorUnit
vsrl = binary srl

unfoldable pub vsra : Operands → VectorUnit → VectorUnit
vsra = binary sra

unfoldable pub vnsrl : Operands → VectorUnit → VectorUnit
vnsrl o = halved (
    by_width narrow_widths
      (λ n. binary_vector_op n (2 * n) n (λ a b. (a >>> bit_and b (16 * n - 1)) % 2 ^ (8 * n)) o))

unfoldable pub vnsra : Operands → VectorUnit → VectorUnit
vnsra o = halved (
    by_width narrow_widths (λ n.
      binary_vector_op n (2 * n) n
        (λ a b. shift_signed (16 * n) a (bit_and b (16 * n - 1)) % 2 ^ (8 * n)) o))

unfoldable pub vminu : Operands → VectorUnit → VectorUnit
vminu = binary (λ w. min_unsigned)

unfoldable pub vmin : Operands → VectorUnit → VectorUnit
vmin = binary min_signed

unfoldable pub vmaxu : Operands → VectorUnit → VectorUnit
vmaxu = binary (λ w. max_unsigned)

unfoldable pub vmax : Operands → VectorUnit → VectorUnit
vmax = binary max_signed

unfoldable pub vmseq : Operands → VectorUnit → VectorUnit
vmseq = compared (λ w a b. a == b)

unfoldable pub vmsne : Operands → VectorUnit → VectorUnit
vmsne = compared (λ w a b. a /= b)

unfoldable pub vmsltu : Operands → VectorUnit → VectorUnit
vmsltu = compared (λ w a b. ltb a b)

unfoldable pub vmslt : Operands → VectorUnit → VectorUnit
vmslt = compared signed_ltb

unfoldable pub vmsleu : Operands → VectorUnit → VectorUnit
vmsleu = compared (λ w a b. leb a b)

unfoldable pub vmsle : Operands → VectorUnit → VectorUnit
vmsle = compared (λ w a b. not (signed_ltb w b a))

unfoldable pub vmsgtu : Operands → VectorUnit → VectorUnit
vmsgtu = compared (λ w a b. ltb b a)

unfoldable pub vmsgt : Operands → VectorUnit → VectorUnit
vmsgt = compared (λ w a b. signed_ltb w b a)

unfoldable pub vsaddu : Operands → VectorUnit → VectorUnit
vsaddu = fixed (λ w rm. saddu w)

unfoldable pub vsadd : Operands → VectorUnit → VectorUnit
vsadd = fixed (λ w rm. vsadd_helper w)

unfoldable pub vssubu : Operands → VectorUnit → VectorUnit
vssubu = fixed (λ w rm. ssubu w)

unfoldable pub vssub : Operands → VectorUnit → VectorUnit
vssub = fixed (λ w rm. vssub_helper w)

unfoldable pub vadc : Operands → VectorUnit → VectorUnit
vadc = carried adc

unfoldable pub vmadc : Operands → VectorUnit → VectorUnit
vmadc o =
    by_width widths
      (λ n. set_mask_binary_vector_mask_op (if n == 8 then madc64 else madc (8 * n)) o)

unfoldable pub vsbc : Operands → VectorUnit → VectorUnit
vsbc = carried sbc

unfoldable pub vmsbc : Operands → VectorUnit → VectorUnit
vmsbc o = by_width widths (λ n. set_mask_binary_vector_mask_op (if n == 8 then msbc64 else msbc) o)

unfoldable pub vmerge : Operands → VectorUnit → VectorUnit
vmerge = carried (λ w a b mask. if mask then b else a)

unfoldable pub vssrl : Operands → VectorUnit → VectorUnit
vssrl = fixed (λ w rm a b. (vssr_helper w false rm a b, false))

unfoldable pub vssra : Operands → VectorUnit → VectorUnit
vssra = fixed (λ w rm a b. (vssr_helper w true rm a b, false))

unfoldable pub vnclip : Operands → VectorUnit → VectorUnit
vnclip o u =
    halved
      (by_width narrow_widths
        (λ n. saturating_vector_op n (2 * n) n (vnclip_helper (8 * n) true u.state.vxrm) o))
      u

unfoldable pub vnclipu : Operands → VectorUnit → VectorUnit
vnclipu o u =
    halved
      (by_width narrow_widths
        (λ n. saturating_vector_op n (2 * n) n (vnclip_helper (8 * n) false u.state.vxrm) o))
      u

unfoldable pub vsmul : Operands → VectorUnit → VectorUnit
vsmul = fixed vsmul_helper

-- Vmvr: a copy of whole registers, from the one of vstart on.
unfoldable pub copy_registers : (ℕ → Group → Span) → ℕ → ℕ → Group → Group
copy_registers source zero i dest = dest
copy_registers source (suc n) i dest =
    copy_registers source n (i + 1) (λ r. if r == i then source i dest else dest r)

unfoldable pub vmvr : ℕ → ℕ → ℕ → (ℕ → Group → Span) → VectorUnit → VectorUnit
vmvr num_regs source_size dest_size source u =
    let v = u.state in
    let start_reg = v.vstart / (v.vector_register_byte_length / v.selected_element_width) in
    if v.vector_exception
    then u
    else if ltb source_size num_regs || ltb dest_size num_regs
    then raise u
    else record {
      state = record v { vstart = 0 };
      dest = copy_registers source (num_regs - start_reg) start_reg u.dest;
    }

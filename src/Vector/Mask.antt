-- ===== src/Vector/Mask.antt =====
-- The operations that write a mask register and those that reduce a vector, of
-- riscv/riscv_vector_instruction_helpers.h. The destination is register 0 of the group, of bytes for a mask.
pub mod Bitwise
use mpact_riscv.Common.{
  ℕ, zero, suc, ◌+◌, ◌-◌, ◌/◌, Bool, true, false, not, ◌&&◌, ◌==◌, ◌/=◌, if◌then◌else◌, bit_and,
  bit_or, List, [], ◌∷◌,
}
use mpact_riscv.Words.{complement, of_bool, ◌<<<◌}
use mpact_riscv.Vector.Loop.{Span, Group, Operands, VectorUnit, mask_bit, checked}

-- The bit of element `i` is cleared, and then set if `b` is.
unfoldable pub set_mask_bit : ℕ → Bool → Span → Span
set_mask_bit i b span k =
    if k == i / 8
    then bit_or (bit_and (span k) (complement 8 (1 <<< bit_and i 0b111)))
        (of_bool b <<< bit_and i 0b111)
    else span k

-- A step for element `i`, which is skipped where `skips` and the mask is used and off.
unfoldable pub mask_step : Bool → (ℕ → ℕ → Bool → Bool) → Operands → Group → ℕ → Span → Span
mask_step skips op o dest i span =
    let mask_used = not o.vm_unmasked_bit in
    let mask_value = mask_bit o.mask i in
    if skips && mask_used && not mask_value
    then span
    else set_mask_bit i
        (op (o.vs2 dest i) (o.vs1 dest (if o.vector_scalar then 0 else i))
          (mask_used && mask_value))
        span

unfoldable pub mask_loop : Bool → (ℕ → ℕ → Bool → Bool) → Operands → Group → ℕ → ℕ → Span → Span
mask_loop skips op o dest zero i span = span
mask_loop skips op o dest (suc n) i span =
    mask_loop skips op o dest n (i + 1) (mask_step skips op o dest i span)

-- A register of the group, submitted, and the reset of vstart.
unfoldable pub submitted : VectorUnit → Span → VectorUnit
submitted u span = record {
  state = record (u.state) { vstart = 0 };
  dest = λ r. if r == 0 then span else u.dest r;
}

unfoldable pub mask_vector_op : Bool → (ℕ → ℕ → Bool → Bool) → Operands → VectorUnit → VectorUnit
mask_vector_op skips op o u =
    let v = u.state in
    if v.vector_exception
    then u
    else submitted u (mask_loop skips op o u.dest (v.vector_length - v.vstart) v.vstart (u.dest 0))

-- RiscVSetMaskBinaryVectorMaskOp, RiscVMaskBinaryVectorMaskOp and RiscVBinaryVectorMaskOp.
unfoldable pub set_mask_binary_vector_mask_op :
    (ℕ → ℕ → Bool → Bool) → Operands → VectorUnit → VectorUnit
set_mask_binary_vector_mask_op = mask_vector_op false

unfoldable pub mask_binary_vector_mask_op :
    (ℕ → ℕ → Bool → Bool) → Operands → VectorUnit → VectorUnit
mask_binary_vector_mask_op = mask_vector_op true

unfoldable pub binary_vector_mask_op : (ℕ → ℕ → Bool) → Operands → VectorUnit → VectorUnit
binary_vector_mask_op op =
    mask_binary_vector_mask_op (λ a b mask_value. if mask_value then op a b else false)

-- RiscVBinaryReductionVectorOp: the elements under the mask are added to the first one of `vs1`. With a
-- vstart other than 0 it does nothing.
unfoldable pub reduction_loop : (ℕ → ℕ → ℕ) → Operands → Group → ℕ → ℕ → ℕ → ℕ
reduction_loop op o dest zero i accumulator = accumulator
reduction_loop op o dest (suc n) i accumulator =
    reduction_loop op o dest n (i + 1)
      (if mask_bit o.mask i then op accumulator (o.vs2 dest i) else accumulator)

-- `convert` is the conversion to the type of the destination.
unfoldable pub binary_reduction_vector_op :
    ℕ → ℕ → ℕ → (ℕ → ℕ) → (ℕ → ℕ → ℕ) → Operands → VectorUnit → VectorUnit
binary_reduction_vector_op d s2 s1 convert op o u =
    let run = λ (u : VectorUnit).
      let accumulator =
        reduction_loop op o u.dest u.state.vector_length 0 (convert (o.vs1 u.dest 0)) in
      submitted u (λ k. if k == 0 then accumulator else u.dest 0 k) in
    if not u.state.vector_exception && u.state.vstart /= 0
    then u
    else checked (d ∷ s2 ∷ s1 ∷ []) run u

-- ===== src/Tests/VectorOps.antt =====
-- The vector instructions: riscv/riscv_vector_instruction_helpers.h, riscv/riscv_vector_opi_instructions.cc
-- and riscv/riscv_vector_opm_instructions.cc.
use mpact_riscv.Common.{
  ℕ, Bool, ◌+◌, ◌-◌, ◌*◌, ◌/◌, ◌%◌, ◌^◌, ◌≡◌, refl, arith, min, true, false, some, ◌&&◌, ltb, leb,
  if◌then◌else◌, bit_and,
}
use mpact_riscv.Words.{complement}
use mpact_riscv.Bitmanip.{signed_ltb}
use mpact_riscv.Integer.{add}
use mpact_riscv.Vector.{VectorState}
use mpact_riscv.Vector.Loop.{
  Operands, VectorUnit, Outcome, mask_bit, noted, checked, item_step, item_loop, register_step,
  register_loop, vector_loop, mask_binary_vector_op, saturating_vector_op, binary_vector_op,
}
use mpact_riscv.Vector.Loop.Elements.{or_old, apart}
use mpact_riscv.Vector.Loop.Operations.{IsBinaryReady, is_body, mask_binary_vector_op-element}
use mpact_riscv.Vector.Mask.{mask_vector_op}
use mpact_riscv.Vector.Mask.Bitwise.{new_bit, mask_bit-mask_vector_op}
use mpact_riscv.Vector.Fixed.{
  get_rounding_bit, round_bits, vssr_helper, vnclip_helper, vsmul_helper, saturated, saddu,
  vsadd_helper, ssubu, vssub_helper, madc, madc64, msbc, msbc64, adc, sbc,
}
use mpact_riscv.Vector.Fixed.Rounding.{rounded, vssr_helper-rounded}
use mpact_riscv.Vector.Fixed.Saturation.{biased, Clamped, saturating}
use mpact_riscv.Vector.Fixed.Carry.{carries}
use mpact_riscv.Vector.Opi.{vadd, vsaddu}
use mpact_riscv.Vector.Opm.{bitwise_mask_binary_op, vaadd_helper}
use mpact_riscv.Vector.Opm.Masks.{is_written, mask_bit-bitwise_mask_binary_op}

-- Registers of four bytes, of which the elements 1 to 5 are the body, and 3 is masked off.
abbrev state : VectorState
state = record {
  vtype = 0;
  vector_exception = false;
  vector_register_byte_length = 4;
  vstart = 1;
  max_vector_length = 8;
  vector_length = 6;
  vector_length_multiplier = 16;
  selected_element_width = 1;
  vector_tail_agnostic = false;
  vector_mask_agnostic = false;
  vxsat = false;
  vxrm = 1;
}

abbrev operands : Operands
operands = record {
  vs2 = λ g i. g (i / 4) (i % 4);
  vs1 = λ g i. 0xf0 + i;
  vd = λ g i. 0;
  vector_scalar = false;
  mask = λ i. 0xf7;
  vm_unmasked_bit = false;
  dest_size = 2;
}

abbrev unit : VectorUnit
unit = record { state = state; dest = λ r i. 10 * (4 * r + i) }

element_runs :
    ((vadd operands unit).dest 0 2 ≡ 6)
    × ((vadd operands unit).dest 0 3 ≡ 30)
    × ((vadd operands unit).dest 1 1 ≡ 39)
    × ((vadd operands unit).dest 1 2 ≡ 60)
    × ((vsaddu operands unit).dest 0 2 ≡ 255)
    × ((vsaddu operands unit).state.vxsat ≡ true)
unfolding vadd vsaddu add binary_vector_op saturating_vector_op mask_binary_vector_op checked
    vector_loop register_loop register_step item_loop item_step mask_bit noted saddu
element_runs = (refl, refl, refl, refl, refl, refl)

fixed_runs :
    (vsadd_helper 8 100 100 ≡ (127, true))
    × (vssub_helper 8 0x80 1 ≡ (0x80, true))
    × (vssr_helper 8 false 1 6 2 ≡ 2)
    × (vssr_helper 8 true 0 0xfa 2 ≡ 0xff)
    × (vnclip_helper 8 true 2 0x4000 0 ≡ (127, true))
    × (vsmul_helper 8 0 0x80 0x80 ≡ (127, true))
    × (vaadd_helper 8 true 3 0xfe 0xfe ≡ 0xfe)
    × (madc64 (2 ^ 64 - 1) 1 false ≡ false)
    × (madc 64 (2 ^ 64 - 1) 1 false ≡ true)
unfolding vsadd_helper vssub_helper vssr_helper vnclip_helper vsmul_helper vaadd_helper madc64 madc
    signed_ltb get_rounding_bit round_bits saturated complement mpact_riscv.Vector.Fixed.round_off
fixed_runs = (refl, refl, refl, refl, refl, refl, refl, refl, refl)

-- An operation on every element, with the mask as a carry.
abbrev carry_op : ℕ → ℕ → Bool → Outcome
carry_op a b active = record {
  value = some ((a + b + (if active then 1 else 0)) % 256);
  saturates = false;
  fails = false;
}

unit-IsBinaryReady : IsBinaryReady 1 1 1 operands unit
unit-IsBinaryReady = record {
  ready = record { quiet = refl; fits = omega arith; room = omega arith };
  legal = refl;
  steady2 = λ g j agrees. agrees (j / 4) (j % 4) (omega arith);
  steady1 = λ g j agrees. refl;
}

mask_binary_vector_op-element_example :
    let after = mask_binary_vector_op 1 1 1 carry_op operands unit in
    (apart after.state ≡ record (apart state) { vstart = 0 })
    × (after.dest 1 0 ≡ (
        if is_body 1 state 1 0
        then or_old ((carry_op (unit.dest 1 0) (0xf0 + 4) (mask_bit operands.mask 4)).value) 40
        else 40))
mask_binary_vector_op-element_example =
    mask_binary_vector_op-element 1 1 1 operands unit carry_op 1 0 unit-IsBinaryReady
      (λ a b active. refl)

mask_bit-mask_vector_op_example :
    let op = λ (a b : ℕ) (active : Bool). active && ltb a b in
    let after = mask_vector_op true op operands unit in
    (after.state ≡ record state { vstart = 0 })
    × (mask_bit (after.dest 0) 2 ≡ (
        if leb 1 2 && ltb 2 6
        then new_bit true op operands unit.dest 2 (mask_bit (unit.dest 0) 2)
        else mask_bit (unit.dest 0) 2))
    × (after.dest 1 ≡ unit.dest 1)
mask_bit-mask_vector_op_example =
    mask_bit-mask_vector_op true (λ a b active. active && ltb a b) operands unit 2 0 refl

vssr_helper-rounded_example : vssr_helper (2 ^ 3) false 1 0x36 0xa ≡ rounded 1 (0xa % 2 ^ 3) 0x36
vssr_helper-rounded_example = vssr_helper-rounded 3 1 0x36 0xa (omega arith)

saturating_example :
    (saddu 8 200 100 ≡ (min (200 + 100) (2 ^ 8 - 1), leb (2 ^ 8) (200 + 100)))
    × (ssubu 8 200 100 ≡ (200 - 100, ltb 200 100))
    × Clamped 8 (biased 8 200 + biased 8 100) (2 ^ (8 - 1)) (vsadd_helper 8 200 100)
    × Clamped 8 (biased 8 200 + 2 ^ 8) (biased 8 100 + 2 ^ (8 - 1)) (vssub_helper 8 200 100)
saturating_example = saturating 8 200 100 (omega arith) (omega arith) (omega arith)

carries_example :
    (adc 32 7 5 true + (if madc 32 7 5 true then 2 ^ 32 else 0) ≡ 7 + 5 + 1)
    × (sbc 32 7 5 true + 5 + 1 ≡ 7 + (if msbc 7 5 true then 2 ^ 32 else 0))
    × (msbc64 7 5 true ≡ msbc 7 5 true)
    × (madc64 (2 ^ 64 - 1) 1 false
        ≡ (madc 64 (2 ^ 64 - 1) 1 false && leb (2 ^ 56) ((2 ^ 64 - 1) / 2 ^ 8 + 1 / 2 ^ 8)))
carries_example =
    carries 32 7 5 true (2 ^ 64 - 1) 1 (omega arith) (omega arith) (omega arith) (omega arith)
      (omega arith)

mask_bit-bitwise_mask_binary_op_example :
    let after = bitwise_mask_binary_op bit_and operands unit in
    (mask_bit (after.dest 0) 2 ≡ (
      if is_written 1 6 2
      then mask_bit (λ i. bit_and (unit.dest (i / 4) (i % 4)) (0xf0 + i)) 2
      else mask_bit (unit.dest 0) 2))
    × (after.dest 1 ≡ unit.dest 1)
    × (is_written 3 20 2 ≡ (leb 3 2 && ltb 2 20))
mask_bit-bitwise_mask_binary_op_example =
    mask_bit-bitwise_mask_binary_op bit_and operands unit 2 0 3 20 refl (omega arith)

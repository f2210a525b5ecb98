-- ===== src/Tests/VectorUnary.antt =====
-- The vector instructions of riscv/riscv_vector_unary_instructions.cc and
-- riscv/riscv_vector_basic_bit_manipulation_instructions.cc.
use mpact_riscv.Common.{◌≡◌, refl, false, some, ltb, if◌then◌else◌, ◌&&◌}
use mpact_riscv.Hart.Defs.{rv32, rv64}
use mpact_riscv.Vector.Loop.{Operands, VectorUnit, mask_bit}
use mpact_riscv.Vector.Mask.{set_mask_bit, submitted}
use mpact_riscv.Vector.Basic.{bit_reverse, bit_reverse_loop, byte_swap, byte_swap_loop, each_byte}
use mpact_riscv.Vector.Unary.{
  vcpop, vfirst, count_loop, find_loop, scalar_result, vmv_to_scalar, vmsbf, vmsif, vmsof,
  before_loop, clear_loop, first_loop, is_set,
}
use mpact_riscv.Vector.Unary.First.{none_set, first_masks}

-- Six elements, of which 2 and 4 are set in the source and 3 is masked off.
abbrev operands : Operands
operands = record {
  vs2 = λ g i. 0b1001_0100;
  vs1 = λ g i. 0;
  vd = λ g i. 0;
  vector_scalar = false;
  mask = λ i. 0xf7;
  vm_unmasked_bit = false;
  dest_size = 1;
}

abbrev unit : VectorUnit
unit = record {
  state = record {
    vtype = 0;
    vector_exception = false;
    vector_register_byte_length = 16;
    vstart = 0;
    max_vector_length = 16;
    vector_length = 6;
    vector_length_multiplier = 8;
    selected_element_width = 1;
    vector_tail_agnostic = false;
    vector_mask_agnostic = false;
    vxsat = false;
    vxrm = 0;
  };
  dest = λ r i. 0xff;
}

unary_runs :
    (vcpop rv32 operands unit ≡ (unit, some 2))
    × (vfirst rv64 operands unit ≡ (unit, some 2))
    × (vmv_to_scalar operands unit ≡ (unit, some 0xffff_ff94))
    × ((vmsbf operands unit).dest 0 0 ≡ 0b1100_0011)
    × ((vmsif operands unit).dest 0 0 ≡ 0b1100_1111)
    × ((vmsof operands unit).dest 0 0 ≡ 0b1100_1100)
    × (bit_reverse 8 0b1101_0000 ≡ 0b1011)
    × (byte_swap 4 0x0102_0304 ≡ 0x0403_0201)
    × (each_byte (bit_reverse 8) 2 0x0180 ≡ 0x8001)
unfolding vcpop vfirst count_loop find_loop scalar_result vmv_to_scalar vmsbf vmsif vmsof
    before_loop clear_loop first_loop bit_reverse bit_reverse_loop byte_swap byte_swap_loop
    each_byte mask_bit set_mask_bit submitted mpact_riscv.Words.complement
unary_runs = (refl, refl, refl, refl, refl, refl, refl, refl, refl)

first_masks_example :
    (mask_bit ((vmsif operands unit).dest 0) 4 ≡ (
      if ltb 4 6 && mask_bit operands.mask 4
      then none_set (is_set operands unit) 4 0
      else mask_bit (unit.dest 0) 4))
    × (mask_bit ((vmsof operands unit).dest 0) 4 ≡ (
        if ltb 4 6 && mask_bit operands.mask 4
        then none_set (is_set operands unit) 4 0 && mask_bit (operands.vs2 unit.dest) 4
        else mask_bit (unit.dest 0) 4))
first_masks_example = first_masks operands unit 4 refl

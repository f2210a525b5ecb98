-- ===== src/Tests/VectorPermute.antt =====
-- The vector instructions of riscv/riscv_vector_permute_instructions.cc and
-- riscv/riscv_vector_reduction_instructions.cc.
use mpact_riscv.Common.{
  ◌+◌, ◌*◌, ◌%◌, ◌^◌, ◌≡◌, refl, arith, true, false, ltb, leb, if◌then◌else◌, ◌&&◌,
}
use mpact_riscv.Integer.{add}
use mpact_riscv.Vector.{VectorState}
use mpact_riscv.Vector.Loop.{
  Operands, VectorUnit, mask_bit, noted, checked, item_step, item_loop, register_step,
  register_loop, vector_loop,
}
use mpact_riscv.Vector.Loop.Elements.{IsReady}
use mpact_riscv.Vector.Mask.{reduction_loop, binary_reduction_vector_op, submitted}
use mpact_riscv.Vector.Permute.{
  permuted, vslide_helper, vslideup, vslidedown, vslide1_helper, vslide1up, vslide1down,
  compress_loop, vcompress_helper, vcompress, vrgather_helper, vrgather,
}
use mpact_riscv.Vector.Permute.Slide.{is_selected}
use mpact_riscv.Vector.Permute.Moves.{vslideup-element, vslidedown-element, vslide1-element}
use mpact_riscv.Vector.Permute.Compress.{selected, entry_or, vcompress-selected}
use mpact_riscv.Vector.Opm.{sign_extended}
use mpact_riscv.Vector.Reduction.{vredsum, vwredsumu, vwredsum, vredmin}
use mpact_riscv.Vector.Reduction.Sum.{total, with_first, vredsum-total, vwredsum-total}

-- Registers of four bytes, with six elements, of which 3 is masked off.
abbrev state : VectorState
state = record {
  vtype = 0;
  vector_exception = false;
  vector_register_byte_length = 4;
  vstart = 0;
  max_vector_length = 8;
  vector_length = 6;
  vector_length_multiplier = 16;
  selected_element_width = 1;
  vector_tail_agnostic = false;
  vector_mask_agnostic = false;
  vxsat = false;
  vxrm = 1;
}

abbrev operands : Operands
operands = record {
  vs2 = λ g i. 100 + i;
  vs1 = λ g i. 2;
  vd = λ g i. 0;
  vector_scalar = true;
  mask = λ i. 0xf7;
  vm_unmasked_bit = false;
  dest_size = 2;
}

abbrev unit : VectorUnit
unit = record { state = state; dest = λ r i. 10 * (4 * r + i) }

ready : IsReady 1 operands unit
ready = record { quiet = refl; fits = omega arith; room = omega arith }

slide_runs :
    ((vslideup operands unit).dest 0 1 ≡ 10)
    × ((vslideup operands unit).dest 0 2 ≡ 100)
    × ((vslideup operands unit).dest 0 3 ≡ 30)
    × ((vslidedown operands unit).dest 1 1 ≡ 107)
    × ((vslide1up operands unit).dest 0 1 ≡ 2)
    × ((vslide1up operands unit).dest 0 2 ≡ 101)
    × ((vslide1down operands unit).dest 1 1 ≡ 106)
    × ((vrgather 2 operands unit).dest 1 1 ≡ 102)
unfolding vslideup vslidedown vslide1up vslide1down vrgather vslide_helper vslide1_helper
    vrgather_helper permuted vector_loop register_loop register_step item_loop item_step mask_bit
    noted
slide_runs = (refl, refl, refl, refl, refl, refl, refl, refl)

compress_runs :
    ((vcompress operands unit).dest 0 3 ≡ 104)
    × ((vcompress operands unit).dest 1 0 ≡ 105)
    × ((vcompress operands unit).dest 1 1 ≡ 50)
unfolding vcompress vcompress_helper compress_loop mask_bit
compress_runs = (refl, refl, refl)

reduction_runs :
    ((vredsum operands unit).dest 0 0 ≡ (2 + 100 + 101 + 102 + 104 + 105) % 256)
    × ((vwredsum operands unit).dest 0 0 ≡ 514)
    × ((vredmin operands unit).dest 0 0 ≡ 2)
unfolding vredsum vwredsum vredmin binary_reduction_vector_op reduction_loop checked mask_bit add
    submitted mpact_riscv.Bitmanip.min_signed mpact_riscv.Bitmanip.signed_ltb
reduction_runs = (refl, refl, refl)

vslideup-element_example :
    (vslideup operands unit).dest 1 1
    ≡ (if is_selected 1 operands state 1 1 && leb 2 5 then 100 + 3 else 50)
vslideup-element_example =
    vslideup-element operands unit 1 1 refl ready (omega arith) (omega arith) (omega arith)
      (λ g j agrees. refl)

vslidedown-element_example :
    (vslidedown operands unit).dest 1 1
    ≡ (if is_selected 1 operands state 1 1 then (if ltb 7 8 then 100 + 7 else 0) else 50)
vslidedown-element_example =
    vslidedown-element operands unit 1 1 refl ready (omega arith) (omega arith) (λ g j agrees. refl)

vslide1-element_example :
    ((vslide1up operands unit).dest 0 1
      ≡ (if is_selected 1 operands state 0 1 then (if leb 2 1 then 100 + 0 else 2 % 2 ^ 8) else 10))
    × ((vslide1down operands unit).dest 0 1 ≡ (
        if is_selected 1 operands state 0 1 then (if ltb 2 8 then 100 + 2 else 2 % 2 ^ 8) else 10))
vslide1-element_example =
    vslide1-element operands unit 0 1 refl ready (omega arith) (omega arith) (λ g j agrees. refl)
      (λ g j agrees. refl)

vcompress-selected_example :
    ((vcompress operands unit).state ≡ record state { vstart = 0 })
    × ((vcompress operands unit).dest 1 0
        ≡ (if ltb 0 4 then entry_or 40 (selected (λ i. 100 + i) (λ i. 0xf7) 6 0) 4 else 40))
vcompress-selected_example = vcompress-selected operands unit 1 0 refl ready

vredsum-total_example :
    vredsum operands unit
    ≡ with_first ((2 + total (λ x. x) (λ i. 0xf7) (λ i. 100 + i) 6 0) % 2 ^ 8) unit
vredsum-total_example = vredsum-total operands unit refl refl refl refl (omega arith)

vwredsum-total_example :
    (vwredsumu operands unit
      ≡ with_first ((2 + total (λ x. x) (λ i. 0xf7) (λ i. 100 + i) 6 0) % 2 ^ 16) unit)
    × (vwredsum operands unit
        ≡ with_first
            ((sign_extended 8 2 + total (sign_extended 8) (λ i. 0xf7) (λ i. 100 + i) 6 0) % 2 ^ 16)
            unit)
vwredsum-total_example = vwredsum-total operands unit refl refl refl refl (omega arith)

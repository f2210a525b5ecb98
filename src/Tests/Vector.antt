-- ===== src/Tests/Vector.antt =====
-- The vector configuration: riscv/riscv_vector_state.cc and Vsetvl.
use mpact_riscv.Common.{◌≡◌, refl, arith, true, false, some, none}
use mpact_riscv.Vector.{
  VectorState, length_multiplier, element_width, max_length, typed, set_vector_type, configured,
  vsetvl_typed, vsetvl, reverted,
}
use mpact_riscv.Vector.Config.{IsConsistent, Configured, vsetvl-Configured, vsetvl-reserved}

-- Registers of 16 bytes, with elements of one byte.
abbrev state : VectorState
state = record {
  vtype = 0;
  vector_exception = false;
  vector_register_byte_length = 16;
  vstart = 0;
  max_vector_length = 16;
  vector_length = 5;
  vector_length_multiplier = 8;
  selected_element_width = 1;
  vector_tail_agnostic = false;
  vector_mask_agnostic = false;
  vxsat = false;
  vxrm = 1;
}

state-IsConsistent : IsConsistent state
unfolding length_multiplier element_width max_length
state-IsConsistent = record {
  not_reserved = omega arith;
  multiplier_is = refl;
  width_is = refl;
  max_is = refl;
  length_fits = omega arith;
}

-- Elements of 4 bytes, in groups of two registers, of which 100 are requested; and a type that would change
-- the maximal length, which is undone.
vsetvl_runs :
    (vsetvl false false 100 0x11 state
      ≡ some (record (typed 0x11 state) { vector_length = 8 }, some 8))
    × (vsetvl true true 0 0x11 state ≡ some (record state { vector_exception = true }, none))
unfolding vsetvl vsetvl_typed set_vector_type typed configured reverted length_multiplier
    element_width max_length
vsetvl_runs = (refl, refl)

vsetvl-Configured_example : Configured false false 7 state (vsetvl false false 7 0x11 state)
vsetvl-Configured_example =
    vsetvl-Configured false false 7 0x11 state state-IsConsistent (omega arith)

vsetvl-reserved_example : vsetvl false false 7 0x20 state ≡ none
vsetvl-reserved_example = vsetvl-reserved false false 7 0x20 state (omega arith)

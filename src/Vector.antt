-- ===== src/Vector.antt =====
-- The vector configuration: RiscVVectorState with its registers, of riscv/riscv_vector_state.h and
-- riscv/riscv_vector_state.cc, and Vsetvl of riscv/riscv_vector_memory_instructions.cc. A division by zero,
-- which ends the program, is `none`.
pub mod Registers
pub mod Config
pub mod Loop
pub mod Mask
pub mod Fixed
pub mod Opi
pub mod Opm
pub mod Reduction
pub mod Permute
pub mod Basic
pub mod Unary
use mpact_riscv.Common.{
  entry, ℕ, zero, suc, ◌+◌, ◌*◌, ◌/◌, ◌%◌, Bool, true, false, ◌&&◌, not, ◌==◌, ◌/=◌, ltb, leb,
  if◌then◌else◌, bit_and, bit_or, Option, some, none, List, [], ◌∷◌,
}
use mpact_riscv.Words.{u32, complement, to_bool, of_bool, ◌<<<◌, ◌>>>◌}
use mpact_riscv.Csr.Simple.{Access, write, set_bits, clear_bits}

pub record VectorState : Type 0 where
  pub vtype : ℕ
  pub vector_exception : Bool
  pub vector_register_byte_length : ℕ
  pub vstart : ℕ
  pub max_vector_length : ℕ
  pub vector_length : ℕ
  pub vector_length_multiplier : ℕ
  pub selected_element_width : ℕ
  pub vector_tail_agnostic : Bool
  pub vector_mask_agnostic : Bool
  pub vxsat : Bool
  pub vxrm : ℕ

-- The tables of SetVectorType.
abbrev pub lmul8_values : List ℕ
lmul8_values = 8 ∷ 16 ∷ 32 ∷ 64 ∷ 0 ∷ 1 ∷ 2 ∷ 4 ∷ []

abbrev pub sew_values : List ℕ
sew_values = 8 ∷ 16 ∷ 32 ∷ 64 ∷ 0 ∷ 0 ∷ 0 ∷ 0 ∷ []

-- SetVectorType: the fields that a type gives.
unfoldable pub length_multiplier : ℕ → ℕ
length_multiplier vtype = entry lmul8_values (bit_and vtype 0b111)

unfoldable pub element_width : ℕ → ℕ
element_width vtype = entry sew_values (bit_and (vtype >>> 3) 0b111) >>> 3

unfoldable pub max_length : ℕ → ℕ → ℕ
max_length bytes vtype = bytes * length_multiplier vtype / (8 * element_width vtype)

unfoldable pub typed : ℕ → VectorState → VectorState
typed vtype v = record v {
  vtype = vtype;
  vector_length_multiplier = length_multiplier vtype;
  selected_element_width = element_width vtype;
  vector_tail_agnostic = to_bool (bit_and (vtype >>> 6) 1);
  vector_mask_agnostic = to_bool (bit_and (vtype >>> 7) 1);
  max_vector_length = max_length v.vector_register_byte_length vtype;
}

unfoldable pub set_vector_type : ℕ → VectorState → Option VectorState
set_vector_type vtype v = if 8 * element_width vtype == 0 then none else some (typed vtype v)

-- Vsetvl: the state, and the value of the destination register if it is written. The requested length is read
-- as a word of 32 bits.
unfoldable pub configured : Bool → Bool → ℕ → VectorState → VectorState × Option ℕ
configured rd_zero rs1_zero avl v =
    let new_max_length = v.max_vector_length in
    let requested = u32 avl in
    let vl = if not rs1_zero && leb requested new_max_length then requested else new_max_length in
    (record v { vector_length = vl }, if rd_zero then none else some vl)

-- The revert of a type that changes the maximal length.
unfoldable pub reverted : Option VectorState → Option (VectorState × Option ℕ)
reverted none = none
reverted (some v) = some (record v { vector_exception = true }, none)

unfoldable pub vsetvl_typed :
    Bool → Bool → ℕ → VectorState → Option VectorState → Option (VectorState × Option ℕ)
vsetvl_typed rd_zero rs1_zero avl old none = none
vsetvl_typed rd_zero rs1_zero avl old (some v) =
    if rs1_zero && rd_zero
    then (if old.max_vector_length /= v.max_vector_length
        then reverted (set_vector_type old.vtype v)
        else some (v, none))
    else some (configured rd_zero rs1_zero avl v)

unfoldable pub vsetvl : Bool → Bool → ℕ → ℕ → VectorState → Option (VectorState × Option ℕ)
vsetvl rd_zero rs1_zero avl source v =
    vsetvl_typed rd_zero rs1_zero avl v (set_vector_type (bit_and source 0xff) v)

-- The registers.
unfoldable pub set_vxrm : ℕ → VectorState → VectorState
set_vxrm value v = record v { vxrm = bit_and value 0x3 }

unfoldable pub vxsat_as_uint32 : VectorState → ℕ
vxsat_as_uint32 v = of_bool v.vxsat

unfoldable pub vxsat_write : ℕ → VectorState → VectorState
vxsat_write value v = record v { vxsat = to_bool (bit_and value 1) }

unfoldable pub vxrm_as_uint32 : VectorState → ℕ
vxrm_as_uint32 v = v.vxrm

unfoldable pub vxrm_write : ℕ → VectorState → VectorState
vxrm_write value v = set_vxrm (bit_and value 3) v

unfoldable pub vcsr_as_uint32 : VectorState → ℕ
vcsr_as_uint32 v = bit_or (bit_and v.vxrm 3 <<< 1) (of_bool v.vxsat)

unfoldable pub vcsr_write : ℕ → VectorState → VectorState
vcsr_write value v = record (set_vxrm (bit_and (value >>> 1) 3) v) {
  vxsat = to_bool (bit_and value 1);
}

-- SetBits and ClearBits of the base class, which read its own value: the initial one, since no method of
-- these registers writes it.
abbrev pub initial_value : ℕ
initial_value = 0

unfoldable pub vcsr_access : Access → ℕ → VectorState → VectorState
vcsr_access write value v = vcsr_write value v
vcsr_access set_bits value v = vcsr_write (bit_or initial_value value) v
vcsr_access clear_bits value v = vcsr_write (bit_and initial_value (complement 32 value)) v

-- ===== src/Atomic.antt =====
-- The atomic instructions of riscv/riscv_a_instructions.cc. The atomic memory is outside the repository: an
-- operation at an address, of a number of bytes, with the value to store if it has one, runs the child
-- instruction on the value that it loads and reports if it is implemented.
use mpact_riscv.Common.{ℕ, ◌*◌, ◌%◌, ◌^◌, Bool, true, false, Option, some, none, if◌then◌else◌}
use mpact_riscv.Hart.Code
use mpact_riscv.Hart.Defs.{Hart, Env}
use mpact_riscv.Hart.Trap.{trap}
use mpact_riscv.Integer.Control.{Place}
use mpact_riscv.Integer.Memory.{System}

-- The operations of util::AtomicMemoryOpInterface that the instructions ask for.
pub data Operation : Type 0 where
  load_linked : Operation
  store_conditional : Operation
  atomic_swap : Operation
  atomic_add : Operation
  atomic_and : Operation
  atomic_or : Operation
  atomic_xor : Operation
  atomic_max : Operation
  atomic_maxu : Operation
  atomic_min : Operation
  atomic_minu : Operation

-- PerformMemoryOp, with `true` for an operation that is not implemented.
pub record AtomicOps (M : Type 0) : Type 0 where
  pub perform_memory_op :
      ℕ → Operation → ℕ → Option ℕ → (ℕ → Hart → Hart) → System M → System M × Bool

abbrev pub illegal : {M : Type 0} → Env → Place → System M → System M
illegal env place s = record s {
  hart = trap env false 0 Code.illegal_instruction place.address s.hart;
}

-- What is left of an operation: the trap if it is not implemented.
unfoldable pub settled : {M : Type 0} → Env → Place → System M × Bool → System M
settled env place (s, unimplemented) = if unimplemented then illegal env place s else s

module _ {M : Type 0} (env : Env) (place : Place) (atomic_memory : Option (AtomicOps M)) where
  -- AInstructionHelper.
  unfoldable pub a_instruction_helper :
      ℕ → Operation → Bool → (ℕ → Hart → Hart) → ℕ → ℕ → System M → System M
  a_instruction_helper size op has_store_value child rs₁ rs₂ s = elim atomic_memory [
    | none ↦ illegal env place s
    | some atomic ↦
        let value = if has_store_value then some (s.hart.regs.x rs₂ % 2 ^ (8 * size)) else none in
        settled env place (atomic.perform_memory_op (s.hart.regs.x rs₁) op size value child s)
  ]

  -- The instructions.
  unfoldable pub lr_w : (ℕ → Hart → Hart) → ℕ → ℕ → System M → System M
  lr_w = a_instruction_helper 4 load_linked false

  unfoldable pub sc_w : (ℕ → Hart → Hart) → ℕ → ℕ → System M → System M
  sc_w = a_instruction_helper 4 store_conditional true

  unfoldable pub amoswap_w : (ℕ → Hart → Hart) → ℕ → ℕ → System M → System M
  amoswap_w = a_instruction_helper 4 atomic_swap true

  unfoldable pub amoadd_w : (ℕ → Hart → Hart) → ℕ → ℕ → System M → System M
  amoadd_w = a_instruction_helper 4 atomic_add true

  unfoldable pub amoand_w : (ℕ → Hart → Hart) → ℕ → ℕ → System M → System M
  amoand_w = a_instruction_helper 4 atomic_and true

  unfoldable pub amoor_w : (ℕ → Hart → Hart) → ℕ → ℕ → System M → System M
  amoor_w = a_instruction_helper 4 atomic_or true

  unfoldable pub amoxor_w : (ℕ → Hart → Hart) → ℕ → ℕ → System M → System M
  amoxor_w = a_instruction_helper 4 atomic_xor true

  unfoldable pub amomax_w : (ℕ → Hart → Hart) → ℕ → ℕ → System M → System M
  amomax_w = a_instruction_helper 4 atomic_max true

  unfoldable pub amomaxu_w : (ℕ → Hart → Hart) → ℕ → ℕ → System M → System M
  amomaxu_w = a_instruction_helper 4 atomic_maxu true

  unfoldable pub amomin_w : (ℕ → Hart → Hart) → ℕ → ℕ → System M → System M
  amomin_w = a_instruction_helper 4 atomic_min true

  unfoldable pub amominu_w : (ℕ → Hart → Hart) → ℕ → ℕ → System M → System M
  amominu_w = a_instruction_helper 4 atomic_minu true

  unfoldable pub lr_d : (ℕ → Hart → Hart) → ℕ → ℕ → System M → System M
  lr_d = a_instruction_helper 8 load_linked false

  unfoldable pub sc_d : (ℕ → Hart → Hart) → ℕ → ℕ → System M → System M
  sc_d = a_instruction_helper 8 store_conditional true

  unfoldable pub amoswap_d : (ℕ → Hart → Hart) → ℕ → ℕ → System M → System M
  amoswap_d = a_instruction_helper 8 atomic_swap true

  unfoldable pub amoadd_d : (ℕ → Hart → Hart) → ℕ → ℕ → System M → System M
  amoadd_d = a_instruction_helper 8 atomic_add true

  unfoldable pub amoand_d : (ℕ → Hart → Hart) → ℕ → ℕ → System M → System M
  amoand_d = a_instruction_helper 8 atomic_and true

  unfoldable pub amoor_d : (ℕ → Hart → Hart) → ℕ → ℕ → System M → System M
  amoor_d = a_instruction_helper 8 atomic_or true

  unfoldable pub amoxor_d : (ℕ → Hart → Hart) → ℕ → ℕ → System M → System M
  amoxor_d = a_instruction_helper 8 atomic_xor true

  unfoldable pub amomax_d : (ℕ → Hart → Hart) → ℕ → ℕ → System M → System M
  amomax_d = a_instruction_helper 8 atomic_max true

  unfoldable pub amomaxu_d : (ℕ → Hart → Hart) → ℕ → ℕ → System M → System M
  amomaxu_d = a_instruction_helper 8 atomic_maxu true

  unfoldable pub amomin_d : (ℕ → Hart → Hart) → ℕ → ℕ → System M → System M
  amomin_d = a_instruction_helper 8 atomic_min true

  unfoldable pub amominu_d : (ℕ → Hart → Hart) → ℕ → ℕ → System M → System M
  amominu_d = a_instruction_helper 8 atomic_minu true

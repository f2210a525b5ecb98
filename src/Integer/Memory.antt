-- ===== src/Integer/Memory.antt =====
-- The loads and stores of riscv/riscv_i_instructions.cc, with RVLoad, RVLoadChild and RVStore of
-- riscv/riscv_instruction_helpers.h and LoadMemory and StoreMemory of riscv/riscv_state.cc. The memory is
-- outside the repository: a type `M` with `load address size` and `store address size value`, whose loads
-- run the child instruction before the next instruction starts.
use mpact_riscv.Common.{
  ℕ, ◌+◌, ◌*◌, ◌%◌, ◌^◌, min, Bool, true, false, ◌/=◌, ltb, if◌then◌else◌, bit_and,
}
use mpact_riscv.Hart.Code
use mpact_riscv.Hart.Defs.{Hart, Env, Xlen, rv32, rv64, rv_unknown}
use mpact_riscv.Hart.Trap.{trap}
use mpact_riscv.Muldiv.{widen}
use mpact_riscv.Zicsr.{write_register}
use mpact_riscv.Integer.Control.{Place}

-- A hart with its memory and the highest address that it may access.
pub record System (M : Type 0) : Type 0 where
  pub hart : Hart
  pub memory : M
  pub max_physical_address : ℕ

-- util::MemoryInterface.
pub record MemoryOps (M : Type 0) : Type 0 where
  pub load : ℕ → ℕ → M → ℕ
  pub store : ℕ → ℕ → ℕ → M → M

abbrev pub k_riscv32_max_memory_size : ℕ
k_riscv32_max_memory_size = 0x3_ffff_ffff

abbrev pub k_riscv64_max_memory_size : ℕ
k_riscv64_max_memory_size = 0x00ff_ffff_ffff_ffff

unfoldable pub limited : Xlen → ℕ → ℕ → ℕ
limited rv32 address old = min address k_riscv32_max_memory_size
limited rv64 address old = min address k_riscv64_max_memory_size
limited rv_unknown address old = old

-- RVLoadChild: the value of `size` bytes, converted to the width of the register.
unfoldable pub load_child : ℕ → ℕ → Bool → ℕ → ℕ → Hart → Hart
load_child w size signed rd value h =
    write_register rd (if signed then widen (8 * size) w value else value % 2 ^ w) h

module _ {M : Type 0} where
  unfoldable pub set_max_physical_address : ℕ → System M → System M
  set_max_physical_address address s = record s {
    max_physical_address = limited s.hart.xlen address s.max_physical_address;
  }

  -- LoadMemory: the child instruction is what is done with the value.
  unfoldable pub load_memory :
      MemoryOps M → Env → Place → ℕ → ℕ → (ℕ → Hart → Hart) → System M → System M
  load_memory ops env place address size child s = record s {
    hart =
        if ltb s.max_physical_address address
        then trap env false address Code.load_access_fault place.address s.hart
        else child (ops.load address size s.memory) s.hart;
  }

  unfoldable pub store_memory : MemoryOps M → Env → Place → ℕ → ℕ → ℕ → System M → System M
  store_memory ops env place address size value s =
      if ltb s.max_physical_address address
      then record s { hart = trap env false address Code.store_access_fault place.address s.hart }
      else record s { memory = ops.store address size value s.memory }

  -- RVLoad with its child, and RVStore.
  unfoldable pub rv_load :
      ℕ → ℕ → Bool → MemoryOps M → Env → Place → ℕ → ℕ → ℕ → System M → System M
  rv_load w size signed ops env place rd rs offset s =
      load_memory ops env place ((s.hart.regs.x rs + offset) % 2 ^ w) size
        (λ value h. load_child w size signed rd value h) s

  unfoldable pub rv_store : ℕ → ℕ → MemoryOps M → Env → Place → ℕ → ℕ → ℕ → System M → System M
  rv_store w size ops env place rs₁ rs₂ offset s =
      store_memory ops env place ((s.hart.regs.x rs₁ + offset) % 2 ^ w) size
        (s.hart.regs.x rs₂ % 2 ^ (8 * size)) s

  -- The instructions. `ld` and `lwu` are those of RV64.
  unfoldable pub ld : MemoryOps M → Env → Place → ℕ → ℕ → ℕ → System M → System M
  ld = rv_load 64 8 true

  unfoldable pub lwu : MemoryOps M → Env → Place → ℕ → ℕ → ℕ → System M → System M
  lwu = rv_load 64 4 false

  unfoldable pub lw : ℕ → MemoryOps M → Env → Place → ℕ → ℕ → ℕ → System M → System M
  lw w = rv_load w 4 true

  unfoldable pub lh : ℕ → MemoryOps M → Env → Place → ℕ → ℕ → ℕ → System M → System M
  lh w = rv_load w 2 true

  unfoldable pub lhu : ℕ → MemoryOps M → Env → Place → ℕ → ℕ → ℕ → System M → System M
  lhu w = rv_load w 2 false

  unfoldable pub lb : ℕ → MemoryOps M → Env → Place → ℕ → ℕ → ℕ → System M → System M
  lb w = rv_load w 1 true

  unfoldable pub lbu : ℕ → MemoryOps M → Env → Place → ℕ → ℕ → ℕ → System M → System M
  lbu w = rv_load w 1 false

  unfoldable pub sd : MemoryOps M → Env → Place → ℕ → ℕ → ℕ → System M → System M
  sd = rv_store 64 8

  unfoldable pub sw : ℕ → MemoryOps M → Env → Place → ℕ → ℕ → ℕ → System M → System M
  sw w = rv_store w 4

  unfoldable pub sh : ℕ → MemoryOps M → Env → Place → ℕ → ℕ → ℕ → System M → System M
  sh w = rv_store w 2

  unfoldable pub sb : ℕ → MemoryOps M → Env → Place → ℕ → ℕ → ℕ → System M → System M
  sb w = rv_store w 1

  -- RiscVIUnimplemented: the trap value is the instruction's word, of 2 bytes or 4. A load that traps leaves
  -- the buffer as it was, with `garbage`.
  unfoldable pub unimplemented : MemoryOps M → Env → ℕ → Place → System M → System M
  unimplemented ops env garbage place s =
      let address = place.address in
      let loaded = load_memory ops env place address 4 (λ word h. h) s in
      let word =
        if ltb s.max_physical_address address then garbage else ops.load address 4 s.memory in
      let shown = if bit_and word 3 /= 3 then bit_and word 0xffff else word in
      record loaded { hart = trap env false shown Code.illegal_instruction address loaded.hart }

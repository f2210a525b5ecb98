-- ===== src/Integer/Control.antt =====
-- The jumps and branches of riscv/riscv_i_instructions.cc, with BranchConditional of
-- riscv/riscv_instruction_helpers.h. The operands are the encodings', which map a register number to an
-- operand; the lookup of misa in the set of registers is a parameter, `none` if it fails.
use mpact_riscv.Common.{
  ℕ, ◌+◌, ◌%◌, ◌^◌, Bool, true, false, ◌&&◌, not, ◌==◌, ◌/=◌, ltb, leb, if◌then◌else◌, bit_and,
  Option, some, none,
}
use mpact_riscv.Words.{complement, to_bool}
use mpact_riscv.Hart.Code
use mpact_riscv.Hart.Defs.{Hart, Env}
use mpact_riscv.Hart.Trap.{trap}
use mpact_riscv.Zicsr.{write_register}
use mpact_riscv.Bitmanip.{signed_ltb}

-- Where an instruction stands, and how many bytes it has.
pub record Place : Type 0 where
  pub address : ℕ
  pub size : ℕ

-- RiscVIllegalInstruction.
unfoldable pub illegal_instruction : Env → Place → Hart → Hart
illegal_instruction env place h = trap env false 0 Code.illegal_instruction place.address h

-- IsaExtensions::kCompressed.
abbrev pub k_compressed : ℕ
k_compressed = 4

unfoldable pub has_compressed : Option ℕ → Bool
has_compressed none = false
has_compressed (some misa) = to_bool (bit_and misa k_compressed)

-- The test of IsTargetMisaligned.
unfoldable pub is_target_misaligned : Option ℕ → ℕ → Bool
is_target_misaligned misa target = not (has_compressed misa) && bit_and target 3 /= 0

-- A write of the pc that is a branch.
unfoldable pub set_pc : ℕ → Hart → Hart
set_pc target h = record h { regs = record (h.regs) { pc = target }; branch = true }

-- The end of RiscVIJal and RiscVIJalr, whose link register is `rd`.
unfoldable pub jump : ℕ → Env → (Hart → Option ℕ) → Place → ℕ → ℕ → Hart → Hart
jump w env get_misa place rd target h =
    if is_target_misaligned (get_misa h) target
    then trap env false target Code.instruction_address_misaligned place.address h
    else write_register rd ((place.address + place.size) % 2 ^ w) (set_pc target h)

unfoldable pub jal : ℕ → Env → (Hart → Option ℕ) → Place → ℕ → ℕ → Hart → Hart
jal w env get_misa place rd offset h =
    jump w env get_misa place rd (bit_and ((offset + place.address) % 2 ^ w) (complement w 1)) h

unfoldable pub jalr : ℕ → Env → (Hart → Option ℕ) → Place → ℕ → ℕ → ℕ → Hart → Hart
jalr w env get_misa place rd rs offset h =
    jump w env get_misa place rd (bit_and ((offset + h.regs.x rs) % 2 ^ w) (complement w 1)) h

-- The taken branch: `none` where the code reads the value of a lookup that failed, which ends the program.
unfoldable pub branch_to : Env → Place → ℕ → Option ℕ → Hart → Option Hart
branch_to env place target none h = none
branch_to env place target (some misa) h = some (
    if is_target_misaligned (some misa) target
    then trap env false place.address Code.instruction_address_misaligned place.address h
    else set_pc target h)

-- BranchConditional.
unfoldable pub branch_conditional :
    ℕ → (ℕ → ℕ → Bool) → Env → (Hart → Option ℕ) → Place → ℕ → ℕ → ℕ → Hart → Option Hart
branch_conditional w cond env get_misa place rs₁ rs₂ offset h =
    if cond (h.regs.x rs₁) (h.regs.x rs₂)
    then branch_to env place ((offset + place.address) % 2 ^ w) (get_misa h) h
    else some h

-- The six branches.
unfoldable pub beq : ℕ → Env → (Hart → Option ℕ) → Place → ℕ → ℕ → ℕ → Hart → Option Hart
beq w = branch_conditional w (λ a b. a == b)

unfoldable pub bne : ℕ → Env → (Hart → Option ℕ) → Place → ℕ → ℕ → ℕ → Hart → Option Hart
bne w = branch_conditional w (λ a b. a /= b)

unfoldable pub blt : ℕ → Env → (Hart → Option ℕ) → Place → ℕ → ℕ → ℕ → Hart → Option Hart
blt w = branch_conditional w (signed_ltb w)

unfoldable pub bltu : ℕ → Env → (Hart → Option ℕ) → Place → ℕ → ℕ → ℕ → Hart → Option Hart
bltu w = branch_conditional w ltb

unfoldable pub bge : ℕ → Env → (Hart → Option ℕ) → Place → ℕ → ℕ → ℕ → Hart → Option Hart
bge w = branch_conditional w (λ a b. not (signed_ltb w a b))

unfoldable pub bgeu : ℕ → Env → (Hart → Option ℕ) → Place → ℕ → ℕ → ℕ → Hart → Option Hart
bgeu w = branch_conditional w (λ a b. leb b a)

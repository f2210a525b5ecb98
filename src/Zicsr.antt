-- ===== src/Zicsr.antt =====
-- The CSR instructions of riscv/riscv_zicsr_instructions.cc.
--
-- A register is what its virtual methods do at the width of the instruction, and the set of registers a
-- function from their numbers. The register number is not negative. The encodings, which choose the
-- variant that does not read or does not write, are not part of this.
pub mod Swap
use mpact_riscv.Common.{
  ℕ, ◌==◌, ltb, ◌&&◌, not, Bool, true, false, if◌then◌else◌, bit_and, Option, none, some,
}
use mpact_riscv.Words.{◌>>>◌}
use mpact_riscv.Hart.Code
use mpact_riscv.Hart.Defs.{Hart, Env, k_supervisor}
use mpact_riscv.Hart.Status.{get_tvm}
use mpact_riscv.Hart.Trap.{trap}

-- RiscVCsrInterface at one width, on the hart that holds the register.
pub record CsrOps : Type 0 where
  pub read : Hart → ℕ
  pub write : ℕ → Hart → Hart
  pub set_bits : ℕ → Hart → Hart
  pub clear_bits : ℕ → Hart → Hart

-- Source operand 0: an integer register or an immediate.
pub data Source : Type 0 where
  register immediate : ℕ → Source

unfoldable pub source_value : Source → Hart → ℕ
source_value (register r) h = h.regs.x r
source_value (immediate v) h = v

unfoldable pub write_register : ℕ → ℕ → Hart → Hart
write_register rd v h = record h {
  regs = record (h.regs) { x = λ r. if r == rd then v else h.regs.x r };
}

abbrev pub k_satp : ℕ
k_satp = 0x180

-- CheckCsrPermission: whether the access is permitted, and the hart, which takes a trap if it is not.
unfoldable pub is_permitted : ℕ → Hart → Bool
is_permitted index h =
    not (ltb h.privilege_mode (bit_and (index >>> 8) 0x3))
    && not (h.privilege_mode == k_supervisor && index == k_satp && get_tvm h.mstatus)

unfoldable pub check_csr_permission : Env → ℕ → ℕ → Hart → Bool × Hart
check_csr_permission env index address h =
    if is_permitted index h
    then (true, h)
    else (false, trap env false 0 Code.illegal_instruction address h)

-- What the five instructions share: after a check that failed, or a lookup that did, nothing is done.
unfoldable pub access : Bool × Hart → Option CsrOps → (CsrOps → Hart → Hart) → Hart
access (true, h) (some csr) body = body csr h
access (true, h) none body = h
access (false, h) found body = h

unfoldable pub with_csr : (ℕ → Option CsrOps) → Env → ℕ → ℕ → (CsrOps → Hart → Hart) → Hart → Hart
with_csr csr_set env index address body h =
    access (check_csr_permission env index address h) (csr_set index) body

module _ (csr_set : ℕ → Option CsrOps) (env : Env) where
  -- Read the register, and write a new value.
  unfoldable pub csrrw : ℕ → ℕ → Source → ℕ → Hart → Hart
  csrrw rd index source address h =
      with_csr csr_set env index address
        (λ csr g. csr.write (source_value source g) (write_register rd (csr.read g) g)) h

  -- Read the register, and set bits.
  unfoldable pub csrrs : ℕ → ℕ → Source → ℕ → Hart → Hart
  csrrs rd index source address h =
      with_csr csr_set env index address
        (λ csr g. csr.set_bits (source_value source g) (write_register rd (csr.read g) g)) h

  -- Read the register, and clear bits.
  unfoldable pub csrrc : ℕ → ℕ → Source → ℕ → Hart → Hart
  csrrc rd index source address h =
      with_csr csr_set env index address
        (λ csr g. csr.clear_bits (source_value source g) (write_register rd (csr.read g) g)) h

  -- Write only, and read only.
  unfoldable pub csrrw_nr : ℕ → Source → ℕ → Hart → Hart
  csrrw_nr index source address h =
      with_csr csr_set env index address (λ csr g. csr.write (source_value source g) g) h

  unfoldable pub csrr_nw : ℕ → ℕ → ℕ → Hart → Hart
  csrr_nw rd index address h =
      with_csr csr_set env index address (λ csr g. write_register rd (csr.read g) g) h

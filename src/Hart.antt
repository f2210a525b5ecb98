-- ===== src/Hart.antt =====
-- One hart: its CSRs, the interrupts, traps and returns. RiscVState of riscv/riscv_state.{h,cc} with
-- the CSR classes that call it back, and riscv/riscv_priv_instructions.cc.
pub mod Code
pub mod Defs
pub mod Interrupt
pub mod Misa
pub mod Status
pub mod Substatus
pub mod Pending
pub mod Trap
pub mod Return

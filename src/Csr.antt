-- ===== src/Csr.antt =====
-- Control and status registers: riscv/riscv_csr.h, riscv/riscv_csr.cc and riscv/riscv_counter_csr.h.
pub mod Simple
pub mod Counter
pub mod Set

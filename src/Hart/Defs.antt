-- ===== src/Hart/Defs.antt =====
-- The state that RiscVState keeps and what it calls: riscv/riscv_state.h.
use mpact_riscv.Common.{List, ℕ, Bool, Option}
use mpact_riscv.Csr.Simple.{SimpleCsr}
use mpact_riscv.Csr.Counter.{CounterCsr}

-- RiscVXlen.
pub data Xlen : Type 0 where
  rv32 rv64 rv_unknown : Xlen

-- PrivilegeMode. It is a number, since the code casts fields of mstatus to it.
abbrev pub k_user : ℕ
k_user = 0

abbrev pub k_supervisor : ℕ
k_supervisor = 1

abbrev pub k_machine : ℕ
k_machine = 3

-- RiscVMStatus: the value of its base class and the buffer of the setters.
pub record MStatus : Type 0 where
  pub value : ℕ
  pub buffer : ℕ
  pub buffer_mask : ℕ

-- RiscVMIp: the value of its base class and the external line.
pub record MIp : Type 0 where
  pub value : ℕ
  pub ext_seip : ℕ

-- The registers that the data buffer delay line writes: the pc and the integer registers.
pub record Regs : Type 0 where
  pub pc : ℕ
  pub x : ℕ → ℕ

pub record Hart : Type 0 where
  pub xlen : Xlen
  pub privilege_mode : ℕ
  pub mstatus : MStatus
  pub misa : ℕ
  pub mip : MIp
  pub mie : ℕ
  pub medeleg : SimpleCsr
  pub mideleg : SimpleCsr
  pub sideleg : SimpleCsr
  pub mepc : SimpleCsr
  pub mcause : SimpleCsr
  pub mtvec : SimpleCsr
  pub mtval : SimpleCsr
  pub sepc : SimpleCsr
  pub scause : SimpleCsr
  pub stvec : SimpleCsr
  pub stval : SimpleCsr
  pub minstret : Option CounterCsr
  pub regs : Regs
  pub branch : Bool
  pub is_interrupt_available : Bool
  pub available_interrupt_code : ℕ
  pub interrupts_taken : ℕ
  pub interrupt_returns : ℕ

-- What the hart calls and does not implement: the handlers that a simulator sets (a handler returns
-- true if it dealt with the event; `none` is a handler that was never set), and the data buffer delay
-- line, whose entries write the pc and the integer registers.
pub record Env : Type 0 where
  pub on_trap : Option (Bool → ℕ → ℕ → ℕ → Hart → Bool × Hart)
  pub on_ecall : Option (Hart → Bool × Hart)
  pub on_ebreak : List (Hart → Bool × Hart)
  pub on_wfi : Option (Hart → Bool × Hart)
  pub on_cease : Option (Hart → Bool × Hart)
  pub flush : Regs → Regs

-- ===== src/Hart/Trap/Effects.antt =====
-- What a trap does besides mstatus: the pc, the privilege mode and the trap registers.
use mpact_riscv.Common.{true, ℕ, ◌≡◌, arith, Bool}
use mpact_riscv.Words.{u32}
use mpact_riscv.Csr.Simple.{set}
use mpact_riscv.Hart.Defs.{Hart, Env, Xlen, rv32, rv64, rv_unknown, k_machine, k_supervisor}
use mpact_riscv.Hart.Status.Fields.{submitted, submit_frame}
use mpact_riscv.Hart.Trap.{
  finish, write_pc, take_trap, destination_mode, trap_target, set_cause, enter_machine,
  enter_supervisor,
}

-- The pc of a hart after a write of an address, and its branch flag.
abbrev pub written_pc : Xlen → ℕ → ℕ → ℕ
written_pc rv32 address old = u32 address
written_pc rv64 address old = address
written_pc rv_unknown address old = old

abbrev pub branched : Xlen → Bool → Bool
branched rv32 old = true
branched rv64 old = true
branched rv_unknown old = old

-- The hart at the end of a trap, up to the interrupt that the write of mstatus may announce.
pub record Finished (env : Env) (target mode : ℕ) (h r : Hart) : Type 0 where
  pub mode_set : r.privilege_mode ≡ mode
  pub jumped : r.regs.pc ≡ written_pc h.xlen target (env.flush h.regs).pc
  pub branch : r.branch ≡ branched h.xlen h.branch
  pub status : r.mstatus ≡ submitted h.mstatus
  pub same_misa : r.misa ≡ h.misa
  pub same_mepc : r.mepc ≡ h.mepc
  pub same_mtval : r.mtval ≡ h.mtval
  pub same_mcause : r.mcause ≡ h.mcause
  pub same_sepc : r.sepc ≡ h.sepc
  pub same_stval : r.stval ≡ h.stval
  pub same_scause : r.scause ≡ h.scause

finish-Finished :
    (env : Env) (target mode : ℕ) (h : Hart) → Finished env target mode h (finish env target mode h)
unfolding finish write_pc
finish-Finished env target mode h =
    let before : Hart = record (write_pc target (record h { regs = env.flush h.regs })) {
      privilege_mode = mode;
    } in
    let f = submit_frame before in ground (arith, f)

-- Where a default trap goes when machine mode takes it.
pub record TakenByMachine (env : Env) (is_interrupt : Bool) (trap_value code epc : ℕ) (h r : Hart)
    : Type 0 where
  pub mode : r.privilege_mode ≡ k_machine
  pub pc : r.regs.pc ≡ written_pc h.xlen (trap_target h.mtvec code) (env.flush h.regs).pc
  pub branch : r.branch ≡ branched h.xlen h.branch
  pub epc_saved : r.mepc ≡ set h.mepc epc
  pub value_saved : r.mtval ≡ set h.mtval trap_value
  pub cause_saved : r.mcause ≡ set_cause h.xlen is_interrupt code h.mcause
  pub status : r.mstatus ≡ submitted (enter_machine h)
  pub supervisor_kept : (r.sepc ≡ h.sepc) × (r.stval ≡ h.stval) × (r.scause ≡ h.scause)

-- A default trap that machine mode takes saves the pc, the trap value and the cause in the registers of
-- machine mode, writes mstatus as a trap to machine mode does, goes to the target that mtvec and the
-- code give, and leaves the registers of supervisor mode as they were.
pub take_trap-TakenByMachine :
    (env : Env) (is_interrupt : Bool) (trap_value code epc : ℕ) (h : Hart)
    → destination_mode is_interrupt code h ≡ k_machine
    → TakenByMachine env is_interrupt trap_value code epc h
        (take_trap env is_interrupt trap_value code epc h)
unfolding take_trap
take_trap-TakenByMachine env is_interrupt trap_value code epc h to =
    let prepared : Hart = record h {
      mepc = set h.mepc epc;
      mtval = set h.mtval trap_value;
      mcause = set_cause h.xlen is_interrupt code h.mcause;
      mstatus = enter_machine h;
    } in
    let f = finish-Finished env (trap_target h.mtvec code) k_machine prepared in
    rw to (ground (arith, f))

-- And when supervisor mode takes it.
pub record TakenBySupervisor (env : Env) (is_interrupt : Bool) (trap_value code epc : ℕ)
    (h r : Hart) : Type 0 where
  pub mode : r.privilege_mode ≡ k_supervisor
  pub pc : r.regs.pc ≡ written_pc h.xlen (trap_target h.stvec code) (env.flush h.regs).pc
  pub branch : r.branch ≡ branched h.xlen h.branch
  pub epc_saved : r.sepc ≡ set h.sepc epc
  pub value_saved : r.stval ≡ set h.stval trap_value
  pub cause_saved : r.scause ≡ set_cause h.xlen is_interrupt code h.scause
  pub status : r.mstatus ≡ submitted (enter_supervisor h)
  pub machine_kept : (r.mepc ≡ h.mepc) × (r.mtval ≡ h.mtval) × (r.mcause ≡ h.mcause)

-- A default trap that supervisor mode takes saves the pc, the trap value and the cause in the registers
-- of supervisor mode, writes mstatus as a trap to supervisor mode does, goes to the target that stvec
-- and the code give, and leaves the registers of machine mode as they were.
pub take_trap-TakenBySupervisor :
    (env : Env) (is_interrupt : Bool) (trap_value code epc : ℕ) (h : Hart)
    → destination_mode is_interrupt code h ≡ k_supervisor
    → TakenBySupervisor env is_interrupt trap_value code epc h
        (take_trap env is_interrupt trap_value code epc h)
unfolding take_trap
take_trap-TakenBySupervisor env is_interrupt trap_value code epc h to =
    let prepared : Hart = record h {
      sepc = set h.sepc epc;
      stval = set h.stval trap_value;
      scause = set_cause h.xlen is_interrupt code h.scause;
      mstatus = enter_supervisor h;
    } in
    let f = finish-Finished env (trap_target h.stvec code) k_supervisor prepared in
    rw to (ground (arith, f))

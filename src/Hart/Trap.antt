-- ===== src/Hart/Trap.antt =====
-- Trap, TakeAvailableInterrupt and the events that trap: riscv/riscv_state.cc.
pub mod Status
pub mod Effects
pub mod Destination
pub mod Taken
use mpact_riscv.Common.{
  ℕ, ◌+◌, ◌*◌, Bool, true, false, ◌&&◌, ◌==◌, ◌/=◌, if◌then◌else◌, bit_and, Option, none, some,
  List, [], ◌∷◌,
}
use mathlib.Core.Option
use mpact_riscv.Words.{u32, u64, complement, to_bool, of_bool, ◌<<<◌}
use mpact_riscv.Csr.Simple.{SimpleCsr, as_uint32, as_uint64, set, set_bits32, set_bits64}
use mpact_riscv.Csr.Counter.{counter_get_uint64, performance_set}
use mpact_riscv.Hart.Code
use mpact_riscv.Hart.Defs.{
  Hart, Env, Xlen, rv32, rv64, rv_unknown, MStatus, k_user, k_supervisor, k_machine,
}
use mpact_riscv.Hart.Interrupt.{get_mie, get_sie}
use mpact_riscv.Hart.Status.{set_mpp, set_mpie, set_mie, set_spp, set_spie, set_sie, submit}

-- An instruction that traps did not retire: writing minstret back takes one from it.
unfoldable pub uncount : Hart → Hart
uncount h = record h {
  minstret = Option.map (λ c. performance_set c (counter_get_uint64 c)) h.minstret;
}

-- The privilege mode that takes the trap.
unfoldable pub destination_mode : Bool → ℕ → Hart → ℕ
destination_mode true code h =
    if to_bool (bit_and (as_uint32 h.mideleg) (u32 (1 <<< code)))
    then (if to_bool (bit_and (as_uint32 h.sideleg) (u32 (1 <<< code)))
        then k_user
        else k_supervisor)
    else k_machine
destination_mode false code h =
    if h.privilege_mode /= k_machine && to_bool (bit_and (as_uint64 h.medeleg) (u64 (1 <<< code)))
    then k_supervisor
    else k_machine

-- Where the vector register sends the trap.
unfoldable pub trap_target : SimpleCsr → ℕ → ℕ
trap_target tvec code =
    let base = bit_and (as_uint64 tvec) (complement 64 3) in
    if bit_and (as_uint64 tvec) 3 == 1 then u64 (base + 4 * code) else base

-- The cause register, with its top bit set for an interrupt.
unfoldable pub set_cause : Xlen → Bool → ℕ → SimpleCsr → SimpleCsr
set_cause x false code cause = set cause code
set_cause rv32 true code cause = set_bits32 (set cause code) 0x8000_0000
set_cause rv64 true code cause = set_bits64 (set cause code) 0x8000_0000_0000_0000
set_cause rv_unknown true code cause = set cause code

-- A write of the pc takes the width of the hart; another width is logged.
unfoldable pub write_pc : ℕ → Hart → Hart
write_pc target h = elim h.xlen [
  | rv32 ↦ record h { regs = record (h.regs) { pc = u32 target }; branch = true }
  | rv64 ↦ record h { regs = record (h.regs) { pc = target }; branch = true }
  | rv_unknown ↦ h
]

-- mstatus while the trap is taken to machine mode, and to supervisor mode.
unfoldable pub enter_machine : Hart → MStatus
enter_machine h =
    let m = set_mpp h.misa h.privilege_mode h.mstatus in
    set_mie 0 (set_mpie (of_bool (get_mie m)) m)

unfoldable pub enter_supervisor : Hart → MStatus
enter_supervisor h =
    let m = set_spp (bit_and h.privilege_mode 1) h.mstatus in
    set_sie 0 (set_spie (of_bool (get_sie m)) m)

-- The end of a trap: pending register writes, the pc, the mode, and the buffered bits of mstatus.
unfoldable pub finish : Env → ℕ → ℕ → Hart → Hart
finish env target mode h =
    let flushed = record h { regs = env.flush h.regs } in
    submit (record (write_pc target flushed) { privilege_mode = mode })

-- The default behaviour of a trap.
unfoldable pub take_trap : Env → Bool → ℕ → ℕ → ℕ → Hart → Hart
take_trap env is_interrupt trap_value code epc h =
    let mode = destination_mode is_interrupt code h in
    if mode == k_machine
    then finish env (trap_target h.mtvec code) mode (record h {
      mepc = set h.mepc epc;
      mtval = set h.mtval trap_value;
      mcause = set_cause h.xlen is_interrupt code h.mcause;
      mstatus = enter_machine h;
    })
    else if mode == k_supervisor
    then finish env (trap_target h.stvec code) mode (record h {
      sepc = set h.sepc epc;
      stval = set h.stval trap_value;
      scause = set_cause h.xlen is_interrupt code h.scause;
      mstatus = enter_supervisor h;
    })
    else h

-- The handler is asked first.
unfoldable pub handle : Option (Hart → Bool × Hart) → Hart → Bool × Hart
handle none h = (false, h)
handle (some f) h = f h

unfoldable pub trap : Env → Bool → ℕ → ℕ → ℕ → Hart → Hart
trap env is_interrupt trap_value code epc h =
    let h₁ = if is_interrupt then h else uncount h in
    let (handled, h₂) =
      handle (Option.map (λ f. f is_interrupt trap_value code epc) env.on_trap) h₁ in
    if handled then h₂ else take_trap env is_interrupt trap_value code epc h₂

unfoldable pub take_available_interrupt : Env → ℕ → Hart → Hart
take_available_interrupt env epc h =
    let h' = trap env true 0 h.available_interrupt_code epc h in
    if h.is_interrupt_available
    then record h' {
      is_interrupt_available = false;
      interrupts_taken = h'.interrupts_taken + 1;
      available_interrupt_code = Code.none;
    }
    else h

-- The instruction at `address` is an environment call.
unfoldable pub ecall : Env → ℕ → Hart → Hart
ecall env address h =
    let (handled, h') = handle env.on_ecall h in
    let mode = h'.privilege_mode in
    if handled
    then h'
    else if mode == k_user
    then trap env false 0 Code.env_call_from_u_mode address h'
    else if mode == k_supervisor
    then trap env false 0 Code.env_call_from_s_mode address h'
    else if mode == k_machine
    then trap env false 0 Code.env_call_from_m_mode address h'
    else h'

-- The breakpoint handlers are asked in turn.
unfoldable pub ask_all : List (Hart → Bool × Hart) → Hart → Bool × Hart
ask_all [] h = (false, h)
ask_all (f ∷ fs) h =
    let (handled, h') = f h in let rest = ask_all fs h' in if handled then (true, h') else rest

unfoldable pub ebreak : Env → ℕ → Hart → Hart
ebreak env address h =
    let (handled, h') = ask_all env.on_ebreak h in
    if handled then h' else trap env false 0 3 address h'

unfoldable pub wfi : Env → Hart → Hart
wfi env h = (handle env.on_wfi h).1

-- With no handler the instruction jumps to itself.
unfoldable pub cease : Env → ℕ → Hart → Hart
cease env address h =
    let (handled, h') = handle env.on_cease h in if handled then h' else write_pc address h'

-- ===== src/Hart/Return.antt =====
-- The privileged instructions of riscv/riscv_priv_instructions.cc, on a hart of 32 and of 64 bits. The
-- registers that they look up (mepc, sepc, mstatus, misa) are those that RiscVState creates, so the
-- lookups succeed. URet has no semantics in the source.
pub mod Status
pub mod RoundTrip
use mpact_riscv.Common.{ℕ, ◌+◌, true, false, ◌&&◌, ◌||◌, ◌==◌, ◌/=◌, ltb, if◌then◌else◌, bit_and}
use mpact_riscv.Words.{of_bool}
use mpact_riscv.Csr.Simple.{as_uint32, as_uint64}
use mpact_riscv.Hart.Code
use mpact_riscv.Hart.Defs.{Hart, Env, MStatus, k_user, k_supervisor, k_machine}
use mpact_riscv.Hart.Misa.{has_user_mode}
use mpact_riscv.Hart.Status.{
  get_tsr, get_tvm, get_mpp, get_spp, get_mpie, get_spie, set_mpp, set_mpie, set_mie, set_spp,
  set_spie, set_sie, submit,
}
use mpact_riscv.Hart.Trap.{trap}

abbrev pub illegal : Env → ℕ → Hart → Hart
illegal env address = trap env false 0 Code.illegal_instruction address

-- The common end of the returns: the jump, the mode, the count of returns, and mstatus.
unfoldable pub return_to : ℕ → ℕ → MStatus → Hart → Hart
return_to target mode m h = submit (record h {
  regs = record (h.regs) { pc = target };
  branch = true;
  mstatus = m;
  privilege_mode = mode;
  interrupt_returns = h.interrupt_returns + 1;
})

-- mstatus of a hart that returns from machine mode, and from supervisor mode.
unfoldable pub leave_machine : Hart → MStatus
leave_machine h =
    let m = set_mpie 1 (set_mie (of_bool (get_mpie h.mstatus)) h.mstatus) in
    if has_user_mode h.misa then set_mpp h.misa k_user m else set_mpp h.misa k_machine m

unfoldable pub leave_supervisor32 : Hart → MStatus
leave_supervisor32 h =
    set_spp (bit_and k_user 1) (set_spie 1 (set_sie (of_bool (get_spie h.mstatus)) h.mstatus))

unfoldable pub leave_supervisor64 : Hart → MStatus
leave_supervisor64 h =
    let m = set_spie 1 (set_sie (of_bool (get_spie h.mstatus)) h.mstatus) in
    if has_user_mode h.misa then set_spp k_user m else set_spp k_machine m

unfoldable pub mret32 : Env → ℕ → Hart → Hart
mret32 env address h =
    if h.privilege_mode /= k_machine
    then illegal env address h
    else return_to (as_uint32 h.mepc) (get_mpp h.mstatus) (leave_machine h) h

unfoldable pub mret64 : Env → ℕ → Hart → Hart
mret64 env address h =
    if h.privilege_mode /= k_machine
    then illegal env address h
    else return_to (as_uint64 h.mepc) (get_mpp h.mstatus) (leave_machine h) h

unfoldable pub sret32 : Env → ℕ → Hart → Hart
sret32 env address h =
    if h.privilege_mode /= k_supervisor
    then illegal env address h
    else if get_tsr h.mstatus
    then illegal env address h
    else return_to (as_uint32 h.sepc) (get_spp h.mstatus) (leave_supervisor32 h) h

unfoldable pub sret64 : Env → ℕ → Hart → Hart
sret64 env address h =
    if ltb h.privilege_mode k_supervisor
    then illegal env address h
    else if get_tsr h.mstatus
    then illegal env address h
    else return_to (as_uint64 h.sepc) (get_spp h.mstatus) (leave_supervisor64 h) h

-- The four forms of sfence.vma check the mode and have no other semantics.
unfoldable pub sfence_vma : Env → ℕ → Hart → Hart
sfence_vma env address h =
    if h.privilege_mode == k_user || (h.privilege_mode == k_supervisor && get_tvm h.mstatus)
    then illegal env address h
    else h

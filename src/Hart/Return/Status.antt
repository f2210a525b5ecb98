-- ===== src/Hart/Return/Status.antt =====
-- mstatus after a return, bit by bit.
use mpact_riscv.Common.{ℕ, ◌≡◌, arith, true, false, ◌&&◌, ◌==◌, if◌then◌else◌}
use mpact_riscv.Bits.{bit}
use mpact_riscv.Words.{of_bool}
use mpact_riscv.Hart.Defs.{Hart, MStatus}
use mpact_riscv.Hart.Misa.{has_user_mode}
use mpact_riscv.Hart.Interrupt.{getter}
use mpact_riscv.Hart.Status.{
  setter, set_mpp, set_mpie, set_mie, set_spp, set_spie, set_sie, get_mpie, get_spie,
}
use mpact_riscv.Hart.Status.Fields.{
  submitted, is_kept, bit-submitted, to_bool-field, status_bits, bit-one,
}
use mpact_riscv.Hart.Return.{leave_machine, leave_supervisor32, leave_supervisor64}
use mpact_riscv.Hart.Trap.Status.{IsIdle, machine_writable, supervisor_writable}

abbrev machine_setters : Hart → MStatus
machine_setters h =
    setter 11 3 0 (setter 7 1 1 (setter 3 1 (of_bool (bit h.mstatus.value 7)) h.mstatus))

leave_machine_lem : (h : Hart) → leave_machine h ≡ machine_setters h
unfolding leave_machine set_mpie set_mie set_mpp get_mpie getter setter has_user_mode
leave_machine_lem h = rw to_bool-field

-- What mret does to mstatus, bit by bit, if no write of it is pending: the interrupt enable is mpie,
-- mpie is set and mpp is user mode. Of the other bits those that Submit keeps stay, and the rest are cleared.
pub bit-leave_machine :
    (h : Hart) (i : ℕ)
    → IsIdle h.mstatus
    → bit (submitted (leave_machine h)).value i ≡ (
        if i == 3
        then bit h.mstatus.value 7
        else if i == 7
        then true
        else if i == 11
        then false
        else if i == 12
        then false
        else bit h.mstatus.value i && is_kept i)
bit-leave_machine h i idle =
    rw (leave_machine_lem h, bit-submitted (machine_setters h) i)
      (simp (status_bits, bit-one, idle.no_buffer, idle.no_mask) (ground (arith, machine_writable)))

abbrev supervisor_setters : Hart → MStatus
supervisor_setters h =
    setter 8 1 0 (setter 5 1 1 (setter 1 1 (of_bool (bit h.mstatus.value 5)) h.mstatus))

leave_supervisor32_lem : (h : Hart) → leave_supervisor32 h ≡ supervisor_setters h
unfolding leave_supervisor32 set_spie set_sie set_spp get_spie getter setter
leave_supervisor32_lem h = rw to_bool-field

leave_supervisor64_lem : (h : Hart) → leave_supervisor64 h ≡ supervisor_setters h
unfolding leave_supervisor64 set_spie set_sie set_spp get_spie getter setter has_user_mode
leave_supervisor64_lem h = rw to_bool-field

-- The 32-bit and the 64-bit sret treat mstatus alike.
pub leave_supervisor_same : (h : Hart) → leave_supervisor32 h ≡ leave_supervisor64 h
leave_supervisor_same h = rw (leave_supervisor32_lem h, leave_supervisor64_lem h)

-- What the 64-bit sret does to mstatus, bit by bit, if no write of it is pending: the interrupt
-- enable is spie, spie is set and spp is user mode. Of the other bits those that Submit keeps stay, and the rest
-- are cleared.
pub bit-leave_supervisor64 :
    (h : Hart) (i : ℕ)
    → IsIdle h.mstatus
    → bit (submitted (leave_supervisor64 h)).value i ≡ (
        if i == 1
        then bit h.mstatus.value 5
        else if i == 5
        then true
        else if i == 8
        then false
        else bit h.mstatus.value i && is_kept i)
bit-leave_supervisor64 h i idle =
    rw (leave_supervisor64_lem h, bit-submitted (supervisor_setters h) i)
      (simp (status_bits, bit-one, idle.no_buffer, idle.no_mask)
        (ground (arith, supervisor_writable)))

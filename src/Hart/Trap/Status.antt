-- ===== src/Hart/Trap/Status.antt =====
-- mstatus after a trap, bit by bit.
use mpact_riscv.Common.{ℕ, ◌≡◌, refl, arith, true, false, ◌&&◌, ◌==◌, if◌then◌else◌, bit_and}
use mpact_riscv.Bits.{bit-bit_and, bit}
use mpact_riscv.Words.{of_bool}
use mpact_riscv.Hart.Defs.{Hart, MStatus, k_supervisor}
use mpact_riscv.Hart.Misa.{has_supervisor_mode, has_user_mode}
use mpact_riscv.Hart.Interrupt.{get_mie, get_sie, getter}
use mpact_riscv.Hart.Status.{
  setter, set_mpp, set_mpie, set_mie, set_spp, set_spie, set_sie, mstatus_write_mask,
}
use mpact_riscv.Hart.Status.Fields.{
  value-setter, submitted, bit-submitted, status_bits, to_bool-field, bit-one, is_kept,
}
use mpact_riscv.Hart.Trap.{enter_machine, enter_supervisor}

-- No setter is waiting for Submit.
pub record IsIdle (m : MStatus) : Type 0 where
  pub no_buffer : m.buffer ≡ 0
  pub no_mask : m.buffer_mask ≡ 0

-- The value of mpp that set_mpp accepts.
abbrev pub IsMode : Hart → Type 0
IsMode h = h.privilege_mode ≡ k_supervisor → has_supervisor_mode h.misa ≡ true

set_mpp_accepted :
    (h : Hart) (m : MStatus)
    → IsMode h
    → set_mpp h.misa h.privilege_mode m ≡ setter 11 3 h.privilege_mode m
unfolding set_mpp has_user_mode
set_mpp_accepted h m mode = ground arith

-- The fields that a trap writes are writable.
pub machine_writable :
    (bit mstatus_write_mask 3 ≡ true)
    × (bit mstatus_write_mask 7 ≡ true)
    × (bit mstatus_write_mask 11 ≡ true)
    × (bit mstatus_write_mask 12 ≡ true)
unfolding bit
machine_writable = (refl, refl, refl, refl)

-- The setters of a trap to machine mode.
abbrev machine_setters : Hart → MStatus
machine_setters h =
    setter 3 1 0
      (setter 7 1 (of_bool (bit h.mstatus.value 3)) (setter 11 3 h.privilege_mode h.mstatus))

enter_machine_lem : (h : Hart) → IsMode h → enter_machine h ≡ machine_setters h
unfolding enter_machine set_mpie set_mie get_mie getter setter
enter_machine_lem h mode = rw (set_mpp_accepted h h.mstatus mode, to_bool-field)

-- What a trap to machine mode does to mstatus, bit by bit, if no write of it is pending and the mode
-- of the hart is a mode of its misa: mpie is the interrupt enable, which is cleared, and mpp is the
-- privilege mode. Of the other bits those that Submit keeps stay, and the rest are cleared.
pub bit-enter_machine :
    (h : Hart) (i : ℕ)
    → IsIdle h.mstatus
    → IsMode h
    → bit (submitted (enter_machine h)).value i ≡ (
        if i == 3
        then false
        else if i == 7
        then bit h.mstatus.value 3
        else if i == 11
        then bit h.privilege_mode 0
        else if i == 12
        then bit h.privilege_mode 1
        else bit h.mstatus.value i && is_kept i)
bit-enter_machine h i idle mode =
    rw (enter_machine_lem h mode, bit-submitted (machine_setters h) i)
      (simp (value-setter, status_bits, idle.no_buffer, idle.no_mask)
        (ground (arith, machine_writable)))

pub supervisor_writable :
    (bit mstatus_write_mask 1 ≡ true)
    × (bit mstatus_write_mask 5 ≡ true)
    × (bit mstatus_write_mask 8 ≡ true)
unfolding bit
supervisor_writable = (refl, refl, refl)

abbrev supervisor_setters : Hart → MStatus
supervisor_setters h = setter 1 1 0 (
    setter 5 1 (of_bool (bit h.mstatus.value 1))
      (setter 8 1 (bit_and h.privilege_mode 1) h.mstatus))

enter_supervisor_lem : (h : Hart) → enter_supervisor h ≡ supervisor_setters h
unfolding enter_supervisor set_spp set_spie set_sie get_sie getter setter
enter_supervisor_lem h = rw to_bool-field

-- What a trap to supervisor mode does to mstatus, bit by bit, if no write of it is pending: spie is
-- the interrupt enable, which is cleared, and spp is the low bit of the privilege mode. Of the other
-- bits those that Submit keeps stay, and the rest are cleared.
pub bit-enter_supervisor :
    (h : Hart) (i : ℕ)
    → IsIdle h.mstatus
    → bit (submitted (enter_supervisor h)).value i ≡ (
        if i == 1
        then false
        else if i == 5
        then bit h.mstatus.value 1
        else if i == 8
        then bit h.privilege_mode 0
        else bit h.mstatus.value i && is_kept i)
bit-enter_supervisor h i idle =
    rw (enter_supervisor_lem h, bit-submitted (supervisor_setters h) i)
      (simp (status_bits, bit-bit_and, bit-one, idle.no_buffer, idle.no_mask)
        (ground (arith, supervisor_writable)))

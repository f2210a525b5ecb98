-- ===== src/Tests/Hart.antt =====
-- Traps, interrupts and returns of a hart.
use mpact_riscv.Common.{ℕ, ◌≤◌, ◌≡◌, refl, arith, true, false, ◌&&◌, ◌||◌, ◌==◌, if◌then◌else◌}
use mpact_riscv.Bits.{bit, bit-zero, bit-bit_and}
use mpact_riscv.Words.{field}
use mpact_riscv.Csr.Simple.{as_uint32, as_uint64, set, get_uint64, get_uint32}
use mpact_riscv.Csr.Simple.{clear_bits}
use mpact_riscv.Csr.Simple.Laws.{accessed}
use mpact_riscv.Hart.Substatus.{sstatus_write_mask, view_access32, view_access64}
use mpact_riscv.Hart.Substatus.Bits.{bit-view_access}
use mpact_riscv.Hart.Defs.{k_machine}
use mpact_riscv.Hart.Interrupt.{
  check_for_interrupt, mip_as_uint32, mie_as_uint32, mip_get_uint64, xip_read_mask, machine_enabled,
  supervisor_enabled, get_mie, get_sie, getter,
}
use mpact_riscv.Hart.Interrupt.Pick.{OnlyCodes, bit-xip_read_mask, rank}
use mpact_riscv.Hart.Interrupt.Check.{for_machine, for_supervisor, check_machine, check_supervisor}
use mpact_riscv.Hart.Status.Fields.{is_kept}
use mpact_riscv.Hart.Trap.{destination_mode, take_trap}
use mpact_riscv.Hart.Trap.Taken.{IsHart64, Taken, take_trap-Taken}
use mpact_riscv.Hart.Trap.Status.{IsIdle, IsMode}
use mpact_riscv.Hart.Return.{mret64}
use mpact_riscv.Hart.Return.RoundTrip.{mret64-take_trap}
use mpact_riscv.Tests.Samples.{hart, delegating_hart, quiet_hart, env}

hart-IsIdle : IsIdle hart.mstatus
hart-IsIdle = record { no_buffer = refl; no_mask = refl }

hart-IsMode : IsMode hart
hart-IsMode e = ground arith

delegating_hart-IsIdle : IsIdle delegating_hart.mstatus
delegating_hart-IsIdle = record { no_buffer = refl; no_mask = refl }

-- The timer interrupt of machine mode may be taken, and none of supervisor mode.
hart-for_machine : for_machine hart 7 ≡ true
unfolding bit mip_as_uint32 mip_get_uint64 mie_as_uint32 machine_enabled get_mie getter field
    as_uint32 get_uint32
hart-for_machine = refl

check_machine_example :
    ((check_for_interrupt hart).is_interrupt_available ≡ true)
    × (for_machine hart (check_for_interrupt hart).available_interrupt_code ≡ true)
    × (rank (check_for_interrupt hart).available_interrupt_code ≤ rank 7)
check_machine_example = check_machine hart 7 hart-for_machine

-- The pending interrupt of the delegating hart is the enabled and the delegated one.
delegating_hart_words :
    (mip_as_uint32 delegating_hart.mip ≡ 0x20) × (as_uint32 delegating_hart.mideleg ≡ 0x20)
unfolding mip_as_uint32 mip_get_uint64 as_uint32 get_uint32
delegating_hart_words = (refl, refl)

delegating_hart_machine : (i : ℕ) → for_machine delegating_hart i ≡ false
delegating_hart_machine i = rw (delegating_hart_words.0, delegating_hart_words.1) (ground arith)

delegating_hart_supervisor : for_supervisor delegating_hart 5 ≡ true
unfolding bit mip_as_uint32 mip_get_uint64 mie_as_uint32 supervisor_enabled get_sie getter field
    as_uint32 get_uint32
delegating_hart_supervisor = refl

check_supervisor_example :
    ((check_for_interrupt delegating_hart).is_interrupt_available ≡ true)
    × (for_supervisor delegating_hart (check_for_interrupt delegating_hart).available_interrupt_code
        ≡ true)
    × (rank (check_for_interrupt delegating_hart).available_interrupt_code ≤ rank 5)
check_supervisor_example =
    check_supervisor delegating_hart 5 delegating_hart_machine delegating_hart_supervisor

quiet_word : mie_as_uint32 quiet_hart.mie ≡ 0
unfolding mie_as_uint32
quiet_word = refl

quiet_machine : (i : ℕ) → for_machine quiet_hart i ≡ false
quiet_machine i = rw quiet_word (ground (arith, bit-zero i))

quiet_supervisor : (i : ℕ) → for_supervisor quiet_hart i ≡ false
quiet_supervisor i = rw quiet_word (ground (arith, bit-zero i))

only_codes : OnlyCodes 0x88
only_codes i set = bit-xip_read_mask i (ground (arith, bit-bit_and 0x88 xip_read_mask i))

seven_set : bit 0x88 7 ≡ true
unfolding bit
seven_set = refl

to_machine : destination_mode true 7 hart ≡ k_machine
unfolding destination_mode as_uint32 get_uint32
to_machine = refl

delegating_hart-IsHart64 : IsHart64 delegating_hart
unfolding as_uint64 get_uint64
delegating_hart-IsHart64 = record {
  xlen = refl;
  mtvec = omega arith;
  stvec = omega arith;
  mepc = refl;
  mtval = refl;
  mcause = (refl, refl);
  sepc = refl;
  stval = refl;
  scause = (refl, refl);
}

delegating_hart-IsMode : IsMode delegating_hart
delegating_hart-IsMode e = ground arith

-- The environment call is delegated.
take_trap-Taken_example :
    Taken false 0 8 0x100 delegating_hart (take_trap env false 0 8 0x100 delegating_hart)
take_trap-Taken_example =
    take_trap-Taken env false 0 8 0x100 delegating_hart (omega arith) delegating_hart-IsHart64
      delegating_hart-IsIdle delegating_hart-IsMode

mret64-take_trap_example :
    let r = mret64 env 0x1000 (take_trap env true 0 7 0x100 hart) in
    (r.privilege_mode ≡ 3)
    × (r.regs.pc ≡ 0x100)
    × ((i : ℕ)
        → bit r.mstatus.value i ≡ (
            if i == 7
            then true
            else if i == 11 || i == 12
            then false
            else bit hart.mstatus.value i && is_kept i))
mret64-take_trap_example =
    mret64-take_trap env true 0 7 0x100 0x1000 hart to_machine hart-IsIdle hart-IsMode (omega arith)
      refl refl (omega arith)

bit-view_access_example :
    let expected = accessed clear_bits (bit hart.mstatus.value 1) (bit 2 1) in
    let kept = bit hart.mstatus.value 1 in
    (bit (view_access32 sstatus_write_mask clear_bits 2 hart).mstatus.value 1
      ≡ (if bit sstatus_write_mask 1 then expected else kept))
    × (bit (view_access64 sstatus_write_mask clear_bits 2 hart).mstatus.value 1
        ≡ (if bit sstatus_write_mask 1 then expected else kept))
bit-view_access_example =
    bit-view_access sstatus_write_mask (omega arith) hart (omega arith) 1 clear_bits 2

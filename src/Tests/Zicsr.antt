-- ===== src/Tests/Zicsr.antt =====
-- The CSR instructions at mepc: riscv/riscv_zicsr_instructions.cc.
use mpact_riscv.Common.{
  ℕ, ◌≡◌, refl, inr, arith, true, ◌&&◌, ◌==◌, if◌then◌else◌, Option, some, none,
}
use mpact_riscv.Bits.{bit}
use mpact_riscv.Csr.Simple.{IsValid}
use mpact_riscv.Zicsr.{CsrOps, register, immediate, is_permitted, csrrw}
use mpact_riscv.Zicsr.Swap.{mepc_slot, slot_ops, bit-csrrw_twice}
use mpact_riscv.Tests.Samples.{hart, env}

-- A set of registers with mepc only.
abbrev mepc_only : ℕ → Option CsrOps
mepc_only index = if index == 0x341 then some (slot_ops mepc_slot) else none

hart_permitted : is_permitted 0x341 hart ≡ true
unfolding is_permitted
hart_permitted = refl

mepc-IsValid : IsValid hart.mepc
mepc-IsValid = record {
  is_xlen = inr refl;
  value_fits = omega arith;
  read_fits = omega arith;
  write_fits = omega arith;
}

bit-csrrw_twice_example :
    let once = csrrw mepc_only env 5 0x341 (immediate 9) 0x100 hart in
    let twice = csrrw mepc_only env 6 0x341 (register 5) 0x100 once in
    bit twice.mepc.value 3 ≡ (
      if bit hart.mepc.write_mask 3
      then bit hart.mepc.read_mask 3 && bit hart.mepc.value 3
      else bit hart.mepc.value 3)
bit-csrrw_twice_example =
    bit-csrrw_twice mepc_slot mepc_only env 0x341 0x100 refl 5 6 3 (immediate 9) hart hart_permitted
      mepc-IsValid

-- ===== src/Tests/Integer.antt =====
-- The integer instructions and the pushes and pops: riscv/riscv_i_instructions.cc and
-- riscv/riscv_zc_instructions.cc.
use mpact_riscv.Common.{
  ℕ, ◌+◌, ◌-◌, ◌*◌, ◌/◌, ◌%◌, ◌^◌, ◌≡◌, refl, arith, true, false, Option, some, ◌&&◌, ◌==◌,
  if◌then◌else◌, ltb,
}
use mpact_riscv.Bits.{bit}
use mpact_riscv.Hart.Defs.{Hart}
use mpact_riscv.Words.{complement}
use mpact_riscv.Hart.Trap.{trap}
use mpact_riscv.Integer.{add, sub, slt, sltu, sll, sra, lui64, auipc64, addw, subw, sraw}
use mpact_riscv.Integer.Control.{Place, jal, jalr}
use mpact_riscv.Integer.Memory.{
  System, MemoryOps, set_max_physical_address, load_memory, store_memory, rv_load, rv_store,
  load_child,
}
use mpact_riscv.Integer.Alu.{slt-sltu}
use mpact_riscv.Integer.Target.{JumpsTo, jal-JumpsTo}
use mpact_riscv.Integer.Access.{StoresWords, bit-load-store, access_faults}
use mpact_riscv.Bitmanip.{signed_ltb}
use native.Mathlib.Nat.{mod-lt}
use mpact_riscv.Common.{List, [], ◌∷◌}
use mpact_riscv.Zcmp.{push, pop}
use mpact_riscv.Csr.Simple.{SimpleCsr}
use mpact_riscv.Zcmp.Stack.{pop-push}
use mpact_riscv.Tests.Samples.{hart, env}

instructions_run :
    (add 32 0xffff_ffff 3 ≡ 2)
    × (sub 32 1 2 ≡ 0xffff_ffff)
    × (slt 32 0xffff_ffff 0 ≡ 1)
    × (sltu 0xffff_ffff 0 ≡ 0)
    × (sll 32 3 33 ≡ 6)
    × (sra 32 0x8000_0000 4 ≡ 0xf800_0000)
    × (lui64 0x8000_0000 ≡ 0xffff_ffff_8000_0000)
    × (auipc64 0x1000 0xffff_f000 ≡ 0)
    × (addw 0x7fff_ffff 1 ≡ 0xffff_ffff_8000_0000)
    × (subw 0 1 ≡ 0xffff_ffff_ffff_ffff)
    × (sraw 0x8000_0000 31 ≡ 0xffff_ffff_ffff_ffff)
unfolding add sub slt sltu sll sra lui64 auipc64 addw subw sraw signed_ltb complement
instructions_run = (refl, refl, refl, refl, refl, refl, refl, refl, refl, refl, refl)

slt-sltu_example :
    (slt 32 0x8000_0000 5 ≡ sltu (add 32 0x8000_0000 (2 ^ (32 - 1))) (add 32 5 (2 ^ (32 - 1))))
    × (sub 32 (add 32 0x8000_0000 5) 5 ≡ 0x8000_0000)
slt-sltu_example = slt-sltu 32 0x8000_0000 5 (omega arith) (omega arith) (omega arith)

-- A hart whose registers hold their numbers, at the address 0x100, and two readings of misa.
abbrev numbered : Hart
numbered = record hart { regs = record (hart.regs) { x = λ r. r } }

abbrev place : Place
place = record { address = 0x100; size = 4 }

abbrev plain_misa : Hart → Option ℕ
plain_misa h = some 0x8000_0000_0014_1101

abbrev full_misa : Hart → Option ℕ
full_misa h = some h.misa

jal-JumpsTo_example :
    JumpsTo 64 env
      (full_misa numbered)
      place
      1
      ((0x22 + 0x100) % 2 ^ 64 / 2 * 2)
      numbered
      (jal 64 env full_misa place 1 0x22 numbered)
    × JumpsTo 64 env
        (full_misa numbered)
        place
        1
        ((0x22 + 7) % 2 ^ 64 / 2 * 2)
        numbered
        (jalr 64 env full_misa place 1 7 0x22 numbered)
jal-JumpsTo_example = jal-JumpsTo 64 env full_misa place 1 7 0x22 numbered

-- A memory of whole values, one for each address.
abbrev cells : MemoryOps (ℕ → ℕ)
cells = record {
  load = λ address size m. m address;
  store = λ address size value m a. if a == address then value else m a;
}

cells-StoresWords : StoresWords cells env
cells-StoresWords = record { load-store = λ address size value m word. ground arith }

abbrev system : System (ℕ → ℕ)
system = record { hart = numbered; memory = λ a. 0; max_physical_address = 0xffff }

bit-load-store_example :
    let stored = rv_store (8 * 2 + 48) 2 cells env place 4 9 0x10 system in
    let loaded = rv_load (8 * 2 + 48) 2 true cells env place 1 4 0x10 stored in
    bit (loaded.hart.regs.x 1) 3
    ≡ (if ltb 3 (8 * 2) then bit 9 3 else ltb 3 (8 * 2 + 48) && true && bit 9 (8 * 2 - 1))
bit-load-store_example =
    bit-load-store cells env 2 48 true place place 1 4 9 0x10 3 system cells-StoresWords
      (omega arith) (omega arith)

access_faults_example :
    let bounded = set_max_physical_address (2 ^ 64 - 1) system in
    let bound = bounded.max_physical_address in
    (load_memory cells env place (2 ^ 60) 8 (load_child 64 8 true 1) bounded
      ≡ record bounded { hart = trap env false (2 ^ 60) 5 0x100 numbered })
    × (store_memory cells env place (2 ^ 60) 8 7 bounded
        ≡ record bounded { hart = trap env false (2 ^ 60) 7 0x100 numbered })
    × (store_memory cells env place bound 8 7 bounded
        ≡ record bounded { memory = cells.store bound 8 7 system.memory })
access_faults_example =
    access_faults cells env (2 ^ 64 - 1) (2 ^ 60) 8 7 place (load_child 64 8 true 1) system
      (λ e. ground (arith, e)) (omega arith)

-- The registers 1 and 8 on the stack.
abbrev saved : List ℕ
saved = 1 ∷ 8 ∷ []

abbrev word_system : System (ℕ → ℕ)
word_system = record system {
  hart = record hart { regs = record (hart.regs) { x = λ r. (r + 0x1000) % 2 ^ 32 } };
}

pop-push_example :
    let pushed = push 32 cells env place 2 saved 5 16 word_system in
    (pop 32 cells env place 7 2 saved 5 16 pushed).hart.regs.x 8 ≡ 0x1008
pop-push_example =
    pop-push 32 cells env place place 7 2 saved 5 16 word_system 8 cells-StoresWords refl
      (λ r. mod-lt (r + 0x1000) (omega arith)) (omega arith)

abbrev table : SimpleCsr
table = record { width = 32; value = 0x1000; read_mask = 0xffff_ffff; write_mask = 0xffff_ffff }

-- ===== src/Zcmp.antt =====
-- The compressed instructions of riscv/riscv_zc_instructions.cc that push and pop registers and that jump by
-- a table. `w` is the width of a register; the operands are the encodings'. A data buffer of several words
-- is the number that they make up, and a load that traps leaves it as it was, with `garbage`.
pub mod Stack
pub mod Jvt
use mpact_riscv.Common.{
  entry, ◌==◌, ℕ, zero, suc, ◌+◌, ◌-◌, ◌*◌, ◌/◌, ◌%◌, ◌^◌, Bool, false, ◌/=◌, ltb, if◌then◌else◌,
  bit_and, List, [], ◌∷◌, map,
}
use mpact_riscv.Words.{complement}
use mpact_riscv.Hart.Code
use mpact_riscv.Hart.Defs.{Hart, Env}
use mpact_riscv.Hart.Trap.{trap}
use mpact_riscv.Zicsr.{write_register}
use mpact_riscv.Integer.Control.{Place, set_pc}
use mpact_riscv.Integer.Memory.{System, MemoryOps, load_memory, store_memory}

abbrev pub stack_adj_base32 : List ℕ
stack_adj_base32 = 0 ∷ 0 ∷ 0 ∷ 0 ∷ 16 ∷ 16 ∷ 16 ∷ 16 ∷ 32 ∷ 32 ∷ 32 ∷ 32 ∷ 48 ∷ 48 ∷ 48 ∷ 64 ∷ []

abbrev pub stack_adj_base64 : List ℕ
stack_adj_base64 = 0 ∷ 0 ∷ 0 ∷ 0 ∷ 16 ∷ 16 ∷ 32 ∷ 32 ∷ 48 ∷ 48 ∷ 64 ∷ 64 ∷ 80 ∷ 80 ∷ 96 ∷ 112 ∷ []

abbrev pub k_stack_adj_base : ℕ → ℕ → ℕ
k_stack_adj_base w rlist = entry (if w == 32 then stack_adj_base32 else stack_adj_base64) rlist

-- The number of a list of words, and its words.
abbrev pub from_words : ℕ → List ℕ → ℕ
from_words w [] = 0
from_words w (v ∷ vs) = v + from_words w vs * 2 ^ w

abbrev pub to_words : ℕ → ℕ → ℕ → List ℕ
to_words w zero v = []
to_words w (suc n) v = v % 2 ^ w ∷ to_words w n (v / 2 ^ w)

abbrev pub count : List ℕ → ℕ
count [] = 0
count (r ∷ rs) = suc (count rs)

-- The writes of a list of registers, in order.
unfoldable pub write_all : List ℕ → List ℕ → Hart → Hart
write_all [] values h = h
write_all (r ∷ rs) [] h = h
write_all (r ∷ rs) (v ∷ vs) h = write_all rs vs (write_register r v h)

module _ {M : Type 0} (w : ℕ) (ops : MemoryOps M) (env : Env) (place : Place) where
  -- RiscVZCmpPush of the registers `regs`, where `sp` is the number of the stack pointer.
  unfoldable pub push : ℕ → List ℕ → ℕ → ℕ → System M → System M
  push sp regs rlist spimm6 s =
      let size = w / 8 * count regs in
      let sp_value = s.hart.regs.x sp in
      let sp_adjustment = (spimm6 + k_stack_adj_base w rlist) % 2 ^ w in
      let stored =
        store_memory ops env place ((sp_value + (2 ^ 64 - size)) % 2 ^ 64) size
          (from_words w (map s.hart.regs.x regs)) s in
      record stored {
        hart = write_register sp ((sp_value + (2 ^ w - sp_adjustment)) % 2 ^ w) stored.hart;
      }

  -- RiscVZCmpPopHelper.
  unfoldable pub pop : ℕ → ℕ → List ℕ → ℕ → ℕ → System M → System M
  pop garbage sp regs rlist spimm6 s =
      let size = w / 8 * count regs in
      let sp_value = s.hart.regs.x sp in
      let sp_adjustment = (spimm6 + k_stack_adj_base w rlist) % 2 ^ w in
      let new_sp = (sp_value + sp_adjustment) % 2 ^ w in
      let start_address = (new_sp + (2 ^ 64 - size)) % 2 ^ 64 in
      let loaded = load_memory ops env place start_address size (λ value h. h) s in
      let value =
        if ltb s.max_physical_address start_address
        then garbage
        else ops.load start_address size s.memory in
      record loaded {
        hart =
            write_register sp new_sp (write_all regs (to_words w (count regs) value) loaded.hart);
      }

  -- RiscVZCmpPopRet and RiscVZCmpPopRetz, which return to the popped `ra`.
  unfoldable pub pop_ret : ℕ → ℕ → ℕ → List ℕ → ℕ → ℕ → System M → System M
  pop_ret garbage sp ra regs rlist spimm6 s =
      let popped = pop garbage sp regs rlist spimm6 s in
      record popped { hart = set_pc (popped.hart.regs.x ra) popped.hart }

  unfoldable pub pop_retz : ℕ → ℕ → ℕ → ℕ → List ℕ → ℕ → ℕ → System M → System M
  pop_retz garbage sp ra a0 regs rlist spimm6 s =
      let popped = pop garbage sp regs rlist spimm6 s in
      let cleared = write_register a0 0 popped.hart in
      record popped { hart = set_pc (cleared.regs.x ra) cleared }

  -- RiscVZCmtJtHelper: the jump by the table at `jvt`.
  unfoldable pub jt : ℕ → ℕ → ℕ → System M → System M
  jt garbage jvt index s =
      let entry_address = (bit_and jvt (complement 64 0x3f) + index * (w / 8)) % 2 ^ w in
      let loaded = load_memory ops env place entry_address (w / 8) (λ value h. h) s in
      let target =
        if ltb s.max_physical_address entry_address
        then garbage
        else ops.load entry_address (w / 8) s.memory in
      if bit_and jvt 0x3f /= 0
      then record s { hart = trap env false 0 Code.illegal_instruction place.address s.hart }
      else record loaded { hart = set_pc target loaded.hart }

  -- RiscVZCmtJalt, whose link register is `ra`.
  unfoldable pub jalt : ℕ → ℕ → ℕ → ℕ → System M → System M
  jalt garbage ra jvt index s =
      let jumped = jt garbage jvt index s in
      record jumped { hart = write_register ra ((place.address + place.size) % 2 ^ w) jumped.hart }

-- RiscVZCmpMvTwoRegs.
unfoldable pub mv_two_regs : ℕ → ℕ → ℕ → ℕ → Hart → Hart
mv_two_regs rd₁ rd₂ rs₁ rs₂ h =
    let first = write_register rd₁ (h.regs.x rs₁) h in write_register rd₂ (first.regs.x rs₂) first

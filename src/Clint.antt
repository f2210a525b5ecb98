-- ===== src/Clint.antt =====
-- RiscVClint, the core level interrupt controller: riscv/riscv_clint.h and riscv/riscv_clint.cc. The
-- hart on the other side of MipExternalWriteInterface is a section parameter (Clint/Lines). The period
-- and the update counter, ints in the source, are natural numbers: the model is of periods that are
-- not negative. The completion of a load by the instruction's child is not part of the controller.
pub mod Lines
pub mod Hart
pub mod Wired
pub mod Timer
pub mod Access
pub mod Trace
use mpact_riscv.Common.{
  ℕ, ◌+◌, ◌==◌, leb, if◌then◌else◌, bit_and, bit_or, List, [], ◌∷◌, Option, none, some,
}
use mpact_riscv.Words.{u8, u16, u32, u64, of_bool, ◌<<<◌, ◌>>>◌}
use mpact_riscv.Clint.Lines.{MipLines}

pub record Clint : Type 0 where
  pub msip : ℕ
  pub mtime : ℕ
  pub mtimecmp : ℕ
  pub mtip : ℕ
  pub update_counter : ℕ
  pub period : ℕ

unfoldable pub read : ℕ → Clint → ℕ
read offset c =
    if offset == 0x0000
    then c.msip
    else if offset == 0x4000
    then u32 (bit_and c.mtimecmp 0xffff_ffff)
    else if offset == 0x4004
    then u32 (c.mtimecmp >>> 32)
    else if offset == 0xbff8
    then u32 (bit_and c.mtime 0xffff_ffff)
    else if offset == 0xbffc
    then u32 (c.mtime >>> 32)
    else 0

-- The elements that Load sets, with their size in bytes: a buffer of another size is cleared.
unfoldable pub load : ℕ → ℕ → Clint → List (ℕ × ℕ)
load address size c =
    let offset = u32 (bit_and address 0xffff) in
    if size == 1
    then (1, u8 (read offset c)) ∷ []
    else if size == 2
    then (2, u16 (read offset c)) ∷ []
    else if size == 4
    then (4, u32 (read offset c)) ∷ []
    else if size == 8
    then (4, u32 (read offset c)) ∷ (4, u32 (read (u32 (offset + 4)) c)) ∷ []
    else []

unfoldable pub write_mtime_low : ℕ → Clint → Clint
write_mtime_low value c = record c { mtime = bit_or (bit_and c.mtime 0xffff_ffff_0000_0000) value }

unfoldable pub write_mtime_high : ℕ → Clint → Clint
write_mtime_high value c = record c {
  mtime = bit_or (bit_and c.mtime 0xffff_ffff) (u64 (value <<< 32));
}

module _ {S : Type 0} (lines : MipLines S) where
  -- The comparison that the source repeats wherever it updates mtip.
  unfoldable pub refresh : Clint → S → Clint × S
  refresh c s =
      let bit = of_bool (leb c.mtimecmp c.mtime) in
      if bit == c.mtip then (c, s) else (record c { mtip = bit }, lines.set_mtip bit s)

  -- The counter calls it with its value, which is not used.
  unfoldable pub set_value : Clint → S → Clint × S
  set_value c s =
      let count = c.update_counter + 1 in
      if leb c.period count
      then refresh (record c { update_counter = 0; mtime = u64 (c.mtime + 1) }) s
      else (record c { update_counter = count }, s)

  unfoldable pub write_msip : ℕ → Clint → S → Clint × S
  write_msip value c s =
      let msip = bit_and value 1 in (record c { msip = msip }, lines.set_msip (bit_and msip 1) s)

  unfoldable pub write_mtimecmp_low : ℕ → Clint → S → Clint × S
  write_mtimecmp_low value c s =
      refresh (record c { mtimecmp = bit_or (bit_and c.mtimecmp 0xffff_ffff_0000_0000) value }) s

  unfoldable pub write_mtimecmp_high : ℕ → Clint → S → Clint × S
  write_mtimecmp_high value c s =
      refresh (record c { mtimecmp = bit_or (bit_and c.mtimecmp 0xffff_ffff) (u64 (value <<< 32)) })
        s

  -- The constructor.
  unfoldable pub create : ℕ → S → Clint × S
  create period s =
      let zeros : Clint = record {
        msip = 0;
        mtime = 0;
        mtimecmp = 0;
        mtip = 0;
        update_counter = 0;
        period = period;
      } in
      let (c₁, s₁) = set_value zeros s in
      refresh c₁ (lines.set_msip (bit_and c₁.msip 1) (lines.set_mtip c₁.mtip s₁))

  unfoldable pub reset : Clint → S → Clint × S
  reset c s = write_msip 0 (write_mtime_high 0 (write_mtime_low 0 c)) s

  -- Write, on the offsets of the registers.
  unfoldable pub write : ℕ → ℕ → Clint → S → Clint × S
  write offset value c s =
      if offset == 0x0000
      then write_msip value c s
      else if offset == 0x4000
      then write_mtimecmp_low value c s
      else if offset == 0x4004
      then write_mtimecmp_high value c s
      else if offset == 0xbff8
      then (record (write_mtime_low value c) { update_counter = 0 }, s)
      else if offset == 0xbffc
      then (write_mtime_high value c, s)
      else (c, s)

  -- A store of eight bytes returns after the write of its first half.
  unfoldable pub store : ℕ → ℕ → ℕ → Clint → S → Clint × S
  store address size word c s =
      let offset = u32 (bit_and address 0xffff) in
      if size == 1
      then write offset (u8 word) c s
      else if size == 2
      then write offset (u16 word) c s
      else if size == 4
      then write offset (u32 word) c s
      else if size == 8
      then write offset (u32 word) c s
      else (c, s)

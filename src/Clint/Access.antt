-- ===== src/Clint/Access.antt =====
-- The memory mapped registers of the controller: what a read returns after a write.
use mpact_riscv.Common.{
  ℕ, ◌+◌, ◌*◌, ◌/◌, ◌%◌, ◌^◌, ◌<◌, ◌≡◌, arith, Bool, true, ◌||◌, ◌==◌, if◌then◌else◌, bit_and, [],
  ◌∷◌,
}
use mpact_riscv.Words.{u32}
use mpact_riscv.Words.Halves.{bit_and-ones, set_low, set_high}
use mpact_riscv.Clint.Lines.{MipLines}
use mpact_riscv.Clint.{
  Clint, read, load, refresh, write, store, write_msip, write_mtime_low, write_mtime_high,
  write_mtimecmp_low, write_mtimecmp_high,
}

-- The registers hold words of their sizes.
pub record IsValid (c : Clint) : Type 0 where
  pub msip_fits : c.msip < 2
  pub mtime_fits : c.mtime < 2 ^ 64
  pub mtimecmp_fits : c.mtimecmp < 2 ^ 64

-- The offsets at which a register is mapped.
abbrev pub is_register : ℕ → Bool
is_register offset =
    offset == 0x0000
    || (offset == 0x4000 || (offset == 0x4004 || (offset == 0xbff8 || offset == 0xbffc)))

-- What a register keeps of a value: msip is one bit wide.
abbrev pub kept : ℕ → ℕ → ℕ
kept offset value = if offset == 0x0000 then value % 2 else value

module _ {S : Type 0} (lines : MipLines S) where
  refresh_frame :
      (c : Clint) (s : S)
      → ((refresh lines c s).0.msip ≡ c.msip)
        × ((refresh lines c s).0.mtime ≡ c.mtime)
        × ((refresh lines c s).0.mtimecmp ≡ c.mtimecmp)
  unfolding refresh
  refresh_frame c s = ground arith

  -- The three registers after a write, as numbers.
  write_numbers :
      (offset value : ℕ) (c : Clint) (s : S)
      → IsValid c
      → value < 2 ^ 32
      → let d = (write lines offset value c s).0 in
        (d.msip ≡ (if offset == 0x0000 then value % 2 else c.msip))
        × (d.mtimecmp ≡ (
            if offset == 0x4000
            then c.mtimecmp / 2 ^ 32 * 2 ^ 32 + value
            else if offset == 0x4004
            then value * 2 ^ 32 + c.mtimecmp % 2 ^ 32
            else c.mtimecmp))
        × (d.mtime ≡ (
            if offset == 0xbff8
            then c.mtime / 2 ^ 32 * 2 ^ 32 + value
            else if offset == 0xbffc
            then value * 2 ^ 32 + c.mtime % 2 ^ 32
            else c.mtime))
  unfolding write write_msip write_mtime_low write_mtime_high write_mtimecmp_low write_mtimecmp_high
  write_numbers offset value c s v h = ground (
    arith,
    bit_and-ones 1 value,
    set_low c.mtimecmp value h,
    set_high c.mtimecmp value h,
    set_low c.mtime value h,
    set_high c.mtime value h,
    refresh_frame (record c { mtimecmp = c.mtimecmp / 2 ^ 32 * 2 ^ 32 + value }) s,
    refresh_frame (record c { mtimecmp = value * 2 ^ 32 + c.mtimecmp % 2 ^ 32 }) s,
  )

  pub write-IsValid :
      (offset value : ℕ) (c : Clint) (s : S)
      → IsValid c
      → value < 2 ^ 32
      → IsValid (write lines offset value c s).0
  write-IsValid offset value c s v h = ground (arith, write_numbers offset value c s v h)

  -- Reads as parts of the three numbers.
  read_numbers :
      (offset : ℕ) (c : Clint)
      → IsValid c
      → read offset c ≡ (
          if offset == 0x0000
          then c.msip
          else if offset == 0x4000
          then c.mtimecmp % 2 ^ 32
          else if offset == 0x4004
          then c.mtimecmp / 2 ^ 32
          else if offset == 0xbff8
          then c.mtime % 2 ^ 32
          else if offset == 0xbffc
          then c.mtime / 2 ^ 32
          else 0)
  unfolding read
  read_numbers offset c v = ground (arith, bit_and-ones 32 c.mtimecmp, bit_and-ones 32 c.mtime)

  -- In a controller whose registers are words of their sizes, a 32-bit write of a mapped register is
  -- read back, of msip the low bit, and a read at any other offset is as before.
  pub read-write :
      (offset other value : ℕ) (c : Clint) (s : S)
      → IsValid c
      → value < 2 ^ 32
      → is_register offset ≡ true
      → read other (write lines offset value c s).0
        ≡ (if other == offset then kept offset value else read other c)
  read-write offset other value c s v h mapped =
      rw
        (
          read_numbers other (write lines offset value c s).0 (write-IsValid offset value c s v h),
          read_numbers other c v,
        )
        (ground (arith, write_numbers offset value c s v h))

  -- In a controller whose registers are words of their sizes, a load of eight bytes from mtimecmp
  -- after a store of eight bytes there returns the new low half and the old high half, since the
  -- second write of the source comes after a return.
  pub load-store_eight :
      (address word : ℕ) (c : Clint) (s : S)
      → IsValid c
      → u32 (bit_and address 0xffff) ≡ 0x4000
      → load address 8 (store lines address 8 word c s).0
        ≡ (4, word % 2 ^ 32) ∷ (4, c.mtimecmp / 2 ^ 32) ∷ []
  unfolding load store
  load-store_eight address word c s v at = rw at (
      ground (
        arith,
        read_numbers 0x4000 (write lines 0x4000 (u32 word) c s).0
            (write-IsValid 0x4000 (u32 word) c s v (omega arith)),
        read_numbers 0x4004 (write lines 0x4000 (u32 word) c s).0
            (write-IsValid 0x4000 (u32 word) c s v (omega arith)),
        write_numbers 0x4000 (u32 word) c s v (omega arith),
      ))

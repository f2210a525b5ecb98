-- ===== src/Zcmp/Jvt.antt =====
-- The register of the jump table: RiscVJvtCsr of riscv/riscv_jvt.h, a RiscVSimpleCsr whose writes clear the
-- field of the mode.
use mpact_riscv.Common.{
  ℕ, ◌+◌, ◌*◌, ◌/◌, ◌%◌, ◌^◌, ◌≤◌, ◌≡◌, arith, refl, ◌⊎◌, inl, inr, false, ◌/=◌, ltb, bit_and,
  bit_or,
}
use mpact_riscv.Bits.{bit_ext, bit-bit_and, bit-mod, bit-zero}
use mpact_riscv.Words.{complement}
use mpact_riscv.Words.Laws.{bit-complement}
use mpact_riscv.Hart.Defs.{Env}
use mpact_riscv.Csr.Simple.{
  SimpleCsr, Access, write, set_bits, clear_bits, set, get_uint32, get_uint64, as_uint64,
}
use mpact_riscv.Integer.Control.{Place, set_pc}
use mpact_riscv.Integer.Memory.{System, MemoryOps, load_memory}
use mpact_riscv.Zcmp.{jt}

unfoldable pub jvt_write32 : SimpleCsr → ℕ → SimpleCsr
jvt_write32 c v = set c (bit_and v (complement 32 0x3f))

unfoldable pub jvt_write64 : SimpleCsr → ℕ → SimpleCsr
jvt_write64 c v = set c (bit_and v (complement 64 0x3f))

-- The accesses, whose changes of bits go through the write.
unfoldable pub jvt_access32 : Access → SimpleCsr → ℕ → SimpleCsr
jvt_access32 write c v = jvt_write32 c v
jvt_access32 set_bits c v = jvt_write32 c (bit_or (get_uint32 c) v)
jvt_access32 clear_bits c v = jvt_write32 c (bit_and (get_uint32 c) (complement 32 v))

unfoldable pub jvt_access64 : Access → SimpleCsr → ℕ → SimpleCsr
jvt_access64 write c v = jvt_write64 c v
jvt_access64 set_bits c v = jvt_write64 c (bit_or (get_uint64 c) v)
jvt_access64 clear_bits c v = jvt_write64 c (bit_and (get_uint64 c) (complement 64 v))

mode_cleared : (n w v m : ℕ) → bit_and (bit_and (bit_and v (complement n 0x3f) % 2 ^ w) m) 0x3f ≡ 0
mode_cleared n w v m = bit_ext _ _ (λ i.
    rw (bit-bit_and, bit-bit_and, bit-mod, bit-bit_and, bit-complement, bit-zero) (ground arith))

jvt_access-mode :
    (access : Access) (c : SimpleCsr) (v : ℕ)
    → (bit_and (as_uint64 (jvt_access32 access c v)) 0x3f ≡ 0)
      × (bit_and (as_uint64 (jvt_access64 access c v)) 0x3f ≡ 0)
unfolding jvt_access32 jvt_access64 jvt_write32 jvt_write64 as_uint64 get_uint64 set
jvt_access-mode write c v =
    (mode_cleared 32 c.width v c.read_mask, mode_cleared 64 c.width v c.read_mask)
jvt_access-mode set_bits c v =
    (mode_cleared 32 c.width _ c.read_mask, mode_cleared 64 c.width _ c.read_mask)
jvt_access-mode clear_bits c v =
    (mode_cleared 32 c.width _ c.read_mask, mode_cleared 64 c.width _ c.read_mask)

-- The value that an access of 4 or of 8 bytes leaves to be read.
abbrev pub IsWritten : Access → SimpleCsr → ℕ → ℕ → Type 0
IsWritten access c v jvt =
    (jvt ≡ as_uint64 (jvt_access32 access c v)) ⊎ (jvt ≡ as_uint64 (jvt_access64 access c v))

jvt-mode :
    (access : Access) (c : SimpleCsr) (v jvt : ℕ) → IsWritten access c v jvt → bit_and jvt 0x3f ≡ 0
jvt-mode access c v jvt (inl e) = rw e ((jvt_access-mode access c v).0)
jvt-mode access c v jvt (inr e) = rw e ((jvt_access-mode access c v).1)

-- After any access of the register of the table, a table jump whose entry is within the bound takes no
-- trap: it goes to the word at the entry, and all else is as before.
pub jt-jvt_access :
    {M : Type 0} (w : ℕ) (ops : MemoryOps M) (env : Env) (place : Place) (garbage index : ℕ)
    (s : System M) (access : Access) (c : SimpleCsr) (v jvt : ℕ)
    → IsWritten access c v jvt
    → let entry = (bit_and jvt (complement 64 0x3f) + index * (w / 8)) % 2 ^ w in
      entry ≤ s.max_physical_address
      → jt w ops env place garbage jvt index s
        ≡ record s { hart = set_pc (ops.load entry (w / 8) s.memory) s.hart }
unfolding jt load_memory
jt-jvt_access w ops env place garbage index s access c v jvt written within =
    let entry = (bit_and jvt (complement 64 0x3f) + index * (w / 8)) % 2 ^ w in
    let allowed : ltb s.max_physical_address entry ≡ false = ground (arith, within) in
    let plain : (bit_and jvt 0x3f /= 0) ≡ false = rw (jvt-mode access c v jvt written) refl in
    rw (plain, allowed) refl

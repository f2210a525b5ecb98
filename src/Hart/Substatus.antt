-- ===== src/Hart/Substatus.antt =====
-- RiscVSStatus and RiscVUStatus: riscv/riscv_xstatus.h and riscv/riscv_xstatus.cc. Both are views of mstatus
-- that differ in their write mask, `mask` below, and in the fields that they name.
pub mod Bits
use mpact_riscv.Common.{ℕ, bit_and, bit_or}
use mpact_riscv.Words.{complement}
use mpact_riscv.Csr.Simple.{Access, write, set_bits, clear_bits}
use mpact_riscv.Hart.Defs.{Hart, MStatus}
use mpact_riscv.Hart.Misa.{stretch32, compress64}
use mpact_riscv.Hart.Status.{mstatus_set64, mstatus_as_uint64}

abbrev pub sstatus_write_mask : ℕ
sstatus_write_mask = 0x0000_0000_000d_e133

abbrev pub ustatus_write_mask : ℕ
ustatus_write_mask = 0x11

unfoldable pub view_as_uint64 : MStatus → ℕ
view_as_uint64 m = mstatus_as_uint64 m

unfoldable pub view_as_uint32 : MStatus → ℕ
view_as_uint32 m = compress64 (view_as_uint64 m)

unfoldable pub view_get_uint64 : MStatus → ℕ
view_get_uint64 m = m.value

unfoldable pub view_get_uint32 : MStatus → ℕ
view_get_uint32 m = compress64 (view_get_uint64 m)

module _ (mask : ℕ) where
  -- Both overloads of Set.
  unfoldable pub view_set64 : ℕ → Hart → Hart
  view_set64 v h =
      mstatus_set64 (bit_or (bit_and h.mstatus.value (complement 64 mask)) (bit_and v mask)) h

  unfoldable pub view_set32 : ℕ → Hart → Hart
  view_set32 v h = view_set64 (stretch32 v) h

  unfoldable pub view_write32 : ℕ → Hart → Hart
  view_write32 v h = view_set32 (bit_and v (compress64 mask)) h

  unfoldable pub view_set_bits32 : ℕ → Hart → Hart
  view_set_bits32 bits h =
      view_set32 (bit_or (view_get_uint32 h.mstatus) (bit_and bits (compress64 mask))) h

  unfoldable pub view_clear_bits32 : ℕ → Hart → Hart
  view_clear_bits32 bits h =
      view_set32
        (bit_and (view_get_uint32 h.mstatus) (complement 32 (bit_and bits (compress64 mask)))) h

  -- Those of the base class, over the overridden GetUint64 and Set.
  unfoldable pub view_write64 : ℕ → Hart → Hart
  view_write64 v h =
      view_set64
        (bit_or (bit_and v mask) (bit_and (view_get_uint64 h.mstatus) (complement 64 mask))) h

  unfoldable pub view_set_bits64 : ℕ → Hart → Hart
  view_set_bits64 bits h = view_write64 (bit_or (view_get_uint64 h.mstatus) bits) h

  unfoldable pub view_clear_bits64 : ℕ → Hart → Hart
  view_clear_bits64 bits h =
      view_write64 (bit_and (view_get_uint64 h.mstatus) (complement 64 bits)) h

  -- The access of a data buffer, of 4 bytes and of 8.
  unfoldable pub view_access32 : Access → ℕ → Hart → Hart
  view_access32 write v h = view_write32 v h
  view_access32 set_bits v h = view_set_bits32 v h
  view_access32 clear_bits v h = view_clear_bits32 v h

  unfoldable pub view_access64 : Access → ℕ → Hart → Hart
  view_access64 write v h = view_write64 v h
  view_access64 set_bits v h = view_set_bits64 v h
  view_access64 clear_bits v h = view_clear_bits64 v h

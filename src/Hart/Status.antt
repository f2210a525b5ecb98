-- ===== src/Hart/Status.antt =====
-- RiscVMStatus: riscv/riscv_xstatus.h and riscv/riscv_xstatus.cc. A method that may call
-- CheckForInterrupt is a function on the hart.
pub mod Fields
use mpact_riscv.Common.{bit_and, bit_or, ℕ, Bool, ◌&&◌, ◌||◌, not, ◌==◌, ◌/=◌, if◌then◌else◌}
use mpact_riscv.Words.{u32, complement, to_bool, ◌<<<◌}
use mpact_riscv.Hart.Defs.{Hart, MStatus, k_user, k_supervisor}
use mpact_riscv.Hart.Misa.{stretch32, compress64, has_user_mode, has_supervisor_mode}
use mpact_riscv.Hart.Interrupt.{getter, check_for_interrupt}

abbrev pub mstatus_read_mask : ℕ
mstatus_read_mask = 0x8000_000f_007f_f9bb

abbrev pub mstatus_write_mask : ℕ
mstatus_write_mask = 0x0000_0000_007f_f9bb

-- set_mask_from_32_: all bits but sxl and uxl, which the 32 bit view does not show.
abbrev pub set_mask_from_32 : ℕ
set_mask_from_32 = 0xffff_fff0_ffff_ffff

-- The getters.
unfoldable pub get_sd : MStatus → Bool
get_sd m = to_bool (getter 31 1 m) || to_bool (getter 63 1 m)

unfoldable pub get_tsr : MStatus → Bool
get_tsr m = to_bool (getter 22 1 m)

unfoldable pub get_tw : MStatus → Bool
get_tw m = to_bool (getter 21 1 m)

unfoldable pub get_tvm : MStatus → Bool
get_tvm m = to_bool (getter 20 1 m)

unfoldable pub get_mpp : MStatus → ℕ
get_mpp m = getter 11 3 m

unfoldable pub get_spp : MStatus → ℕ
get_spp m = getter 8 1 m

unfoldable pub get_mpie : MStatus → Bool
get_mpie m = to_bool (getter 7 1 m)

unfoldable pub get_spie : MStatus → Bool
get_spie m = to_bool (getter 5 1 m)

-- SetterHelper: the setters collect their bits in a buffer until Submit.
unfoldable pub setter : ℕ → ℕ → ℕ → MStatus → MStatus
setter shift mask v m = record m {
  buffer = bit_or (bit_and m.buffer (complement 64 (mask <<< shift))) (bit_and v mask <<< shift);
  buffer_mask = bit_or m.buffer_mask (mask <<< shift);
}

unfoldable pub set_spp : ℕ → MStatus → MStatus
set_spp = setter 8 1

unfoldable pub set_mpie : ℕ → MStatus → MStatus
set_mpie = setter 7 1

unfoldable pub set_spie : ℕ → MStatus → MStatus
set_spie = setter 5 1

unfoldable pub set_mie : ℕ → MStatus → MStatus
set_mie = setter 3 1

unfoldable pub set_sie : ℕ → MStatus → MStatus
set_sie = setter 1 1

-- Values for privilege modes that misa does not have are ignored.
unfoldable pub set_mpp : ℕ → ℕ → MStatus → MStatus
set_mpp misa v m =
    if v == k_user && not (has_user_mode misa)
    then m
    else if v == k_supervisor && not (has_supervisor_mode misa)
    then m
    else setter 11 3 v m

-- Set(uint64_t): the base class's, then a check if an interrupt enable might be set.
unfoldable pub mstatus_set64 : ℕ → Hart → Hart
mstatus_set64 v h =
    let h' = record h { mstatus = record (h.mstatus) { value = v } } in
    if bit_and v 0xf /= 0 then check_for_interrupt h' else h'

-- Set(uint32_t): the sxl and uxl bits are kept.
unfoldable pub mstatus_set32 : ℕ → Hart → Hart
mstatus_set32 v h =
    mstatus_set64
      (bit_or (bit_and (stretch32 v) set_mask_from_32)
        (bit_and h.mstatus.value (complement 64 set_mask_from_32)))
      h

unfoldable pub mstatus_get_uint32 : MStatus → ℕ
mstatus_get_uint32 m = compress64 m.value

unfoldable pub mstatus_as_uint32 : MStatus → ℕ
mstatus_as_uint32 m = bit_and (mstatus_get_uint32 m) (compress64 mstatus_read_mask)

unfoldable pub mstatus_as_uint64 : MStatus → ℕ
mstatus_as_uint64 m = bit_and m.value mstatus_read_mask

-- Write(uint64_t) is the base class's.
unfoldable pub mstatus_write64 : ℕ → Hart → Hart
mstatus_write64 v h =
    mstatus_set64
      (bit_or (bit_and v mstatus_write_mask)
        (bit_and h.mstatus.value (complement 64 mstatus_write_mask)))
      h

unfoldable pub mstatus_write32 : ℕ → Hart → Hart
mstatus_write32 v h = mstatus_set32 (bit_and v (compress64 mstatus_write_mask)) h

unfoldable pub mstatus_set_bits32 : ℕ → Hart → Hart
mstatus_set_bits32 bits h =
    mstatus_set32
      (bit_or (mstatus_get_uint32 h.mstatus) (bit_and bits (compress64 mstatus_write_mask))) h

unfoldable pub mstatus_clear_bits32 : ℕ → Hart → Hart
mstatus_clear_bits32 bits h =
    mstatus_set32
      (bit_and (mstatus_get_uint32 h.mstatus)
        (complement 32 (bit_and bits (compress64 mstatus_write_mask))))
      h

-- Submit. The call of Write finds the override for a word of 32 bits, which hides the one of the base class,
-- so the new value is cut to its low half. The write may check for interrupts, which leaves the buffer alone.
unfoldable pub submit : Hart → Hart
submit h =
    let m = h.mstatus in
    let new_value = bit_or (bit_and m.value (complement 64 m.buffer_mask)) m.buffer in
    let h' = mstatus_write32 (u32 new_value) h in
    record h' { mstatus = record (h'.mstatus) { buffer = 0; buffer_mask = 0 } }

-- ===== src/Hart/Pending.antt =====
-- RiscVMIp, RiscVMIe, RiscVSIp and RiscVSIe: riscv/riscv_xip_xie.h and riscv/riscv_xip_xie.cc.
use mpact_riscv.Common.{ℕ, Bool, ◌||◌, ◌/=◌, if◌then◌else◌, bit_and, bit_or}
use mpact_riscv.Words.{complement, to_bool, of_bool, field, ◌<<<◌}
use mpact_riscv.Csr.Simple.{get_uint64}
use mpact_riscv.Hart.Defs.{Hart, MIp}
use mpact_riscv.Hart.Interrupt.{mip_get_uint64, check_for_interrupt, xip_read_mask}

abbrev pub mip_write_mask : ℕ
mip_write_mask = 0b0011_0011_1011

abbrev pub sip_write_mask : ℕ
sip_write_mask = 0b0011_0011_0011

-- Set of mip: the base class's, then a check if any bit is set.
unfoldable pub mip_set : ℕ → Hart → Hart
mip_set v h =
    let h' = record h { mip = record (h.mip) { value = v } } in
    if v /= 0 then check_for_interrupt h' else h'

-- SetterHelper of RiscVMIp. The fields are one bit wide.
unfoldable pub mip_setter : ℕ → ℕ → Hart → Hart
mip_setter shift v h =
    let bit_value = bit_and v 1 in
    let new_value =
      bit_or (bit_and (mip_get_uint64 h.mip) (complement 64 (1 <<< shift))) (bit_value <<< shift) in
    mip_set new_value h

unfoldable pub set_meip : ℕ → Hart → Hart
set_meip = mip_setter 11

unfoldable pub set_mtip : ℕ → Hart → Hart
set_mtip = mip_setter 7

unfoldable pub set_msip : ℕ → Hart → Hart
set_msip = mip_setter 3

unfoldable pub set_ext_seip : ℕ → Hart → Hart
set_ext_seip v h = record h { mip = record (h.mip) { ext_seip = of_bool (v /= 0) <<< 9 } }

unfoldable pub get_meip : MIp → Bool
get_meip p = to_bool (field 11 1 (mip_get_uint64 p))

unfoldable pub get_seip : MIp → Bool
get_seip p = to_bool (field 9 1 (mip_get_uint64 p)) || p.ext_seip /= 0

unfoldable pub get_mtip : MIp → Bool
get_mtip p = to_bool (field 7 1 (mip_get_uint64 p))

unfoldable pub get_msip : MIp → Bool
get_msip p = to_bool (field 3 1 (mip_get_uint64 p))

-- Write of mip is the base class's, over the overridden GetUint64 and Set.
unfoldable pub mip_write64 : ℕ → Hart → Hart
mip_write64 v h =
    mip_set
      (bit_or (bit_and v mip_write_mask)
        (bit_and (mip_get_uint64 h.mip) (complement 64 mip_write_mask)))
      h

-- Set of mie.
unfoldable pub mie_set : ℕ → Hart → Hart
mie_set v h = let h' = record h { mie = v } in if v /= 0 then check_for_interrupt h' else h'

unfoldable pub mie_write64 : ℕ → Hart → Hart
mie_write64 v h =
    mie_set (bit_or (bit_and v xip_read_mask) (bit_and h.mie (complement 64 xip_read_mask))) h

-- sip and sie are views of mip and mie.
unfoldable pub sip_get_uint64 : Hart → ℕ
sip_get_uint64 h = bit_and (mip_get_uint64 h.mip) (bit_or (get_uint64 h.mideleg) xip_read_mask)

unfoldable pub sip_set : ℕ → Hart → Hart
sip_set v h =
    let wmask = bit_or sip_write_mask (get_uint64 h.mideleg) in
    mip_set (bit_or (bit_and (mip_get_uint64 h.mip) wmask) (bit_and v wmask)) h

unfoldable pub sie_get_uint64 : Hart → ℕ
sie_get_uint64 h = bit_and h.mie (bit_or (get_uint64 h.mideleg) xip_read_mask)

unfoldable pub sie_set : ℕ → Hart → Hart
sie_set v h =
    let wmask = bit_or xip_read_mask (get_uint64 h.mideleg) in
    mie_set (bit_or (bit_and h.mie wmask) (bit_and v wmask)) h

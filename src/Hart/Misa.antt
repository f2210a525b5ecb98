-- ===== src/Hart/Misa.antt =====
-- RiscVMIsa: riscv/riscv_misa.h and riscv/riscv_misa.cc.
use mpact_riscv.Common.{bit_and, bit_or, ℕ, Bool, true, ◌==◌, if◌then◌else◌}
use mpact_riscv.Words.{u32, to_bool, ◌<<<◌, ◌>>>◌}
use mpact_riscv.Hart.Defs.{Xlen, rv32, rv64, rv_unknown}

-- StretchMisa32 and CompressMisa64; RiscVMStatus has the same two functions for itself.
unfoldable pub stretch32 : ℕ → ℕ
stretch32 value = bit_or (bit_and value 0xc000_0000 <<< 32) (bit_and value 0x03ff_ffff)

unfoldable pub compress64 : ℕ → ℕ
compress64 value = u32 (bit_or (bit_and (value >>> 32) 0xc000_0000) (bit_and value 0x3fff_ffff))

unfoldable pub misa_get_uint32 : ℕ → ℕ
misa_get_uint32 misa = compress64 misa

abbrev pub misa_read_mask : ℕ
misa_read_mask = 0xc000_0000_03ff_ffff

unfoldable pub misa_as_uint32 : ℕ → ℕ
misa_as_uint32 misa = bit_and (misa_get_uint32 misa) (compress64 misa_read_mask)

-- Both overloads of Write log a warning and change nothing.
unfoldable pub misa_write : ℕ → ℕ → ℕ
misa_write misa value = misa

unfoldable pub has_supervisor_mode : ℕ → Bool
has_supervisor_mode misa = to_bool (bit_and (misa_get_uint32 misa) (1 <<< 18))

unfoldable pub has_user_mode : ℕ → Bool
has_user_mode misa = true

-- The mask is written 0xb11 in the source.
unfoldable pub misa_xlen : ℕ → Xlen
misa_xlen misa =
    let mxl = bit_and (misa >>> 62) 0xb11 in
    if mxl == 1 then rv32 else if mxl == 2 then rv64 else rv_unknown

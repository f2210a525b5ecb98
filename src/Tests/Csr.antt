-- ===== src/Tests/Csr.antt =====
-- The registers: riscv/riscv_csr.h and riscv/riscv_counter_csr.h.
use mpact_riscv.Common.{◌≡◌, refl, inr, arith, some}
use mpact_riscv.Csr.Simple.{
  IsValid, write, set_bits, clear_bits, access32, access64, write64, set_data_buffer, set,
  get_uint64, set_bits32, write32, get_uint32, clear_bits64,
}
use mpact_riscv.Words.{complement}
use mpact_riscv.Csr.Counter.{CounterCsr, CounterPair}
use mpact_riscv.Tests.Samples.{masked}

masked-IsValid : IsValid masked
masked-IsValid = record {
  is_xlen = inr refl;
  value_fits = omega arith;
  read_fits = omega arith;
  write_fits = omega arith;
}

set_data_buffer_runs :
    ((set_data_buffer write masked 8 0xfff3).value ≡ 0xa3)
    × ((set_data_buffer set_bits masked 4 0x2).value ≡ 0xa7)
    × ((set_data_buffer clear_bits masked 8 0x4).value ≡ 0xa1)
    × (set_data_buffer clear_bits masked 2 0x4 ≡ masked)
unfolding set_data_buffer access32 access64 write64 set get_uint64 complement set_bits32 write32
    get_uint32 clear_bits64
set_data_buffer_runs = (refl, refl, refl, refl)

abbrev counter : CounterCsr
counter = record { width = 32; counter = some 0xffff_ffff; offset = 0 }

abbrev pair : CounterPair
pair = record {
  low = record { width = 32; counter = some 0xffff_ffff; offset = 3 };
  high_counter = some 0xffff_ffff;
  high_offset = 0;
}

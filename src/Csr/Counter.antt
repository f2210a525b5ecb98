-- ===== src/Csr/Counter.antt =====
-- The counter registers of riscv/riscv_counter_csr.h: a bound counter with an offset that a write sets.
-- `width` is the number of bits of T; a counter of the simulator has 64 bits.
pub mod Laws
use mpact_riscv.Common.{ℕ, ◌+◌, ◌-◌, ◌*◌, ◌/◌, ◌%◌, ◌^◌, Bool, ◌==◌, leb, if◌then◌else◌, bit_or}
use mpact_riscv.Common.{Option, none, some}
use mpact_riscv.Words.{u32, u64, of_bool, ◌<<<◌, ◌>>>◌}

-- RiscVCounterCsr and RiscVPerformanceCounterCsr.
pub record CounterCsr : Type 0 where
  pub width : ℕ
  pub counter : Option ℕ
  pub offset : ℕ

-- a - b in w bits, for b in w bits.
abbrev pub sub : ℕ → ℕ → ℕ → ℕ
sub w a b = (a + 2 ^ w - b) % 2 ^ w

abbrev pub bound_value : Option ℕ → ℕ
bound_value none = 0
bound_value (some v) = v

-- GetCounterValue.
unfoldable pub counter_value : CounterCsr → ℕ
counter_value c = bound_value c.counter % 2 ^ c.width

unfoldable pub counter_get_uint64 : CounterCsr → ℕ
counter_get_uint64 c = (counter_value c + c.offset) % 2 ^ c.width

unfoldable pub counter_get_uint32 : CounterCsr → ℕ
counter_get_uint32 c = u32 ((counter_value c + c.offset) % 2 ^ c.width)

-- Both overloads of Set: the value is cut to T.
unfoldable pub counter_set : CounterCsr → ℕ → CounterCsr
counter_set c v = record c { offset = sub c.width (v % 2 ^ c.width) (counter_value c) }

-- RiscVPerformanceCounterCsr::Set. The counter is incremented as part of the writing instruction.
unfoldable pub performance_set : CounterCsr → ℕ → CounterCsr
performance_set c v = let c' = counter_set c v in record c' { offset = sub c.width c'.offset 1 }

-- RiscVCounterCsrHigh: the upper half on a 32-bit hart, beside its low register.
pub record CounterPair : Type 0 where
  pub low : CounterCsr
  pub high_counter : Option ℕ
  pub high_offset : ℕ

unfoldable pub high_get_uint32 : CounterPair → ℕ
high_get_uint32 p =
    let offset = bit_or (u64 (p.high_offset <<< 32)) p.low.offset in
    u32 (u64 (bound_value p.high_counter + offset) >>> 32)

-- Whether the low halves carry into the upper half.
unfoldable pub carry : CounterPair → Bool
carry p = leb (2 ^ 32) (u32 (bound_value p.high_counter) + p.low.offset)

unfoldable pub high_set : CounterPair → ℕ → CounterPair
high_set p v = record p {
  high_offset = sub 64 (sub 64 v (bound_value p.high_counter >>> 32)) (of_bool (carry p));
}

-- RiscVPerformanceCounterCsrHigh::Set, which also takes one from the offset of the pair.
unfoldable pub performance_high_set : CounterPair → ℕ → CounterPair
performance_high_set p v =
    let p' = high_set p v in
    record p' {
      high_offset = if p.low.offset == 0 then sub 64 p'.high_offset 1 else p'.high_offset;
      low = record (p.low) { offset = sub 32 p.low.offset 1 };
    }
